-- ===== src/Console/Thread.antt =====
-- The thread of the console, and its start.
use mqtt_field_bridge_app.Base.{
  ℕ, ◌+◌, ◌≡◌, refl, Bool, ◌++◌, codes, inl, inr, true, Bool-cases, Option, none, some, List, [],
  ◌∷◌, Bytes, take, is_nonempty, if◌then◌else◌, ◌==◌,
}
use mqtt_field_bridge_app.Config.{Platform, IsWellFormed}
use mqtt_field_bridge_app.Runtime.{P2p}
use mqtt_field_bridge_app.Console.State.{Console, text}
use mqtt_field_bridge_app.Console.Menus.{print_menu}
use mqtt_field_bridge_app.Console.Dispatch.{handle_line, handle_lines}
use mqtt_field_bridge_app.Console.Valid.{handle_lines-IsWellFormed}

-- The lines that are handled, of what console_getline returns: those with a character, cut to the
-- buffer.
unfoldable pub lines_of : ℕ → List (Option Bytes) → List Bytes
lines_of line_max [] = []
lines_of line_max (none ∷ inputs) = lines_of line_max inputs
lines_of line_max (some line ∷ inputs) =
    let rest = lines_of line_max inputs in
    if is_nonempty line then take line_max line ∷ rest else rest

module _ {S : Type 0} (env : Platform S) (p2p : P2p) where
  -- The loop of console_thread over what console_getline returns; `line_max` is the greatest length of
  -- a line.
  unfoldable pub console_thread : ℕ → List (Option Bytes) → Console S → Console S
  console_thread line_max [] t = t
  console_thread line_max (none ∷ inputs) t = console_thread line_max inputs t
  console_thread line_max (some line ∷ inputs) t =
      let skipped = console_thread line_max inputs t in
      let handled =
        console_thread line_max inputs (handle_line env p2p true (some (take line_max line)) t).1 in
      if is_nonempty line then handled else skipped

  -- The entry function of the thread: what it shows at first, by the build, and its loop.
  unfoldable pub console_entry : Bool → ℕ → List (Option Bytes) → Console S → Console S
  console_entry has_w5500 line_max inputs t =
      let greeting = text (codes "\nfield-bridge console ready. type menu\n") in
      let t' =
        if has_w5500 then record t { output = t.output ++ greeting ∷ [] } else print_menu t in
      console_thread line_max inputs t'

  -- The thread handles the lines one after the other.
  pub console_thread-handle_lines :
      (line_max : ℕ) (inputs : List (Option Bytes)) (t : Console S)
      → console_thread line_max inputs t ≡ handle_lines env p2p true (lines_of line_max inputs) t
  unfolding console_thread lines_of handle_lines
  console_thread-handle_lines line_max [] t = refl
  console_thread-handle_lines line_max (none ∷ inputs) t =
      console_thread-handle_lines line_max inputs t
  console_thread-handle_lines line_max (some line ∷ inputs) t =
      elim (Bool-cases (is_nonempty line)) [
        | inl e ↦ rw (e, console_thread, lines_of) (console_thread-handle_lines line_max inputs _)
        | inr e ↦ rw (e, console_thread, lines_of) (console_thread-handle_lines line_max inputs t)
      ]

  -- Whatever comes over the UART, settings that validate stay settings that validate, and every slot
  -- keeps a peer.
  pub console_thread-IsWellFormed :
      (line_max : ℕ) (inputs : List (Option Bytes)) (t : Console S)
      → IsWellFormed t.config
      → IsWellFormed (console_thread line_max inputs t).config
  console_thread-IsWellFormed line_max inputs t h =
      rw (console_thread-handle_lines line_max inputs t)
        (handle_lines-IsWellFormed env p2p true (lines_of line_max inputs) t h)

-- The flag, and the number of threads that were created.
unfoldable pub product_console_start : ℕ × ℕ → ℕ × ℕ
product_console_start (console_started, threads) =
    if console_started == 0 then (1, threads + 1) else (console_started, threads)
