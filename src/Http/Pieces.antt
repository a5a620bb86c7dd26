-- ===== src/Http/Pieces.antt =====
-- The lengths of what a format prints.
use mqtt_field_bridge_app.Base.{
  ℕ, zero, suc, ◌+◌, ◌/◌, ◌%◌, ◌^◌, ◌<◌, ◌≤◌, List, [], ◌∷◌, ◌++◌, Bytes, arith, codes, length, All,
  length-append, String,
}
use mqtt_field_bridge_app.Console.{decimal, decimal_from}
use mqtt_field_bridge_app.Http.Builders.{piece}

pub length-decimal_from : (fuel n k : ℕ) → n < 10 ^ suc k → length (decimal_from fuel n) ≤ suc k
unfolding decimal_from
length-decimal_from zero n k h = omega arith
length-decimal_from (suc fuel) n zero h = ground arith
length-decimal_from (suc fuel) n (suc k) h =
    let ih = length-decimal_from fuel (n / 10) k (omega arith) in
    let len = length-append (decimal_from fuel (n / 10)) ((b'0' + n % 10) ∷ []) in ground arith

pub length-decimal : (n : ℕ) → n < 65536 → length (decimal n) ≤ 5
unfolding decimal
length-decimal n h = length-decimal_from (suc n) n 4 (omega arith)

-- A piece of a format, the value that it shows, and the most characters of the value.
abbrev pub Part : Type 0
Part = String × Bytes × ℕ

abbrev pub pieces : List Part → Bytes → Bytes
pieces [] after = after
pieces ((before, value, most) ∷ parts) after = piece before value (pieces parts after)

-- The most characters of all of them.
abbrev pub most_of : List Part → ℕ
most_of [] = 0
most_of ((before, value, most) ∷ parts) = length (codes before) + most + most_of parts

pub length-pieces-le :
    (parts : List Part) (after : Bytes)
    → All (λ p. length p.1 ≤ p.2) parts
    → length (pieces parts after) ≤ most_of parts + length after
length-pieces-le [] after h = omega arith
length-pieces-le ((before, value, most) ∷ parts) after h =
    let rest = pieces parts after in
    omega (
      arith,
      h.0,
      length-append (codes before) (value ++ rest),
      length-append value rest,
      length-pieces-le parts after h.1,
    )
