-- ===== src/IoBridge.antt =====
-- product_io_bridge.c. The two printers of the dephy module, which say how many characters they print,
-- are parameters.
use mqtt_field_bridge_app.Base.{
  ◌≡◌, ◌↔◌, arith, Bool, true, false, Option, none, some, Bytes, String, ℤ, pos, negsuc, Rc, ok,
  fail, ◌==◌, not, if◌then◌else◌,
}

-- The sample's name is what the code looks at; the rest of it is for the printers.
pub record Sample (A : Type 0) : Type 0 where
  pub name : Option Bytes
  pub value : A

-- dephy_io_format_topic and dephy_io_format_sample_json: the number, and the array.
pub record Printers (A : Type 0) : Type 0 where
  pub format_topic : Bytes → Bytes → Bytes → Bytes → String → ℤ × Bytes
  pub format_sample_json : Bytes → Sample A → ℤ × Bytes

abbrev pub above_zero : ℤ → Bool
above_zero (pos n) = not (n == 0)
above_zero (negsuc n) = false

module _ {A : Type 0} (printers : Printers A) where
  open printers use {format_topic, format_sample_json}

  -- With a topic, a payload and a sample that has a name: the result and the two arrays.
  unfoldable pub format_named :
      Bytes → Bytes → Bytes → Bytes → Bytes → Sample A → Rc × Bytes × Bytes
  format_named topic payload site node name sample =
      let (n, topic') = format_topic topic site node name "state" in
      let (m, payload') = format_sample_json payload sample in
      if not (above_zero n)
      then (fail, topic', payload)
      else if not (above_zero m)
      then (fail, topic', payload')
      else (ok, topic', payload')

  -- With arrays for the topic and the payload.
  unfoldable pub format_state :
      Bytes → Bytes → Bytes → Bytes → Option (Sample A) → Rc × Bytes × Bytes
  format_state topic payload site node none = (fail, topic, payload)
  format_state topic payload site node (some sample) = elim sample.name [
    | none ↦ (fail, topic, payload)
    | some name ↦ format_named topic payload site node name sample
  ]

  -- A state is formatted exactly if both printers print something.
  pub format_named_iff :
      (topic payload site node name : Bytes) (sample : Sample A)
      → ((format_named topic payload site node name sample).0 ≡ ok) ↔ (
          (above_zero (format_topic topic site node name "state").0 ≡ true)
          × (above_zero (format_sample_json payload sample).0 ≡ true))
  unfolding format_named
  format_named_iff topic payload site node name sample = (λ h. ground arith, λ h. ground arith)
