-- ===== src/Base/Int.antt =====
-- Go's `int`: an integer whose `negsuc n` is -(n + 1), and `strconv.Atoi`.
use container_web_tty.Base.Text.{Bytes}
use container_web_tty.Base.Tests.{leb, ltb, if◌then◌else◌, ◌==◌}
use Prim.Native.Nat.{ℕ, suc, zero, ◌+◌, ◌-◌, ◌*◌, ◌^◌, ◌/◌, ◌%◌}
use mathlib.Core.Bool.{Bool, true, false, ◌&&◌}
use mathlib.Core.Option.{Option, none, some}
use mathlib.Core.List.{[], ◌∷◌}

pub data ℤ : Type 0 where
  pos : ℕ → ℤ
  negsuc : ℕ → ℤ

-- `0 < i`
abbrev pub is_pos : ℤ → Bool
is_pos (pos n) = ltb 0 n
is_pos (negsuc n) = false

abbrev pub is_zero : ℤ → Bool
is_zero (pos n) = n == 0
is_zero (negsuc n) = false

-- The value of a text of decimal digits, read after the value `acc`.
unfoldable pub digits_value : ℕ → Bytes → Option ℕ
digits_value acc [] = some acc
digits_value acc (c ∷ s) = elim (leb b'0' c && leb c b'9') [
  | true ↦ digits_value (acc * 10 + (c - b'0')) s
  | false ↦ none
]

unfoldable pub digits : Bytes → Option ℕ
unfolding digits_value
digits [] = none
digits (c ∷ s) = digits_value 0 (c ∷ s)

abbrev in_range : Bool → ℤ → Option ℤ
in_range true i = some i
in_range false i = none

abbrev negative : ℕ → ℤ
negative zero = pos 0
negative (suc n) = negsuc n

-- strconv.Atoi with a 64-bit `int`: an optional sign, and decimal digits in range.
unfoldable pub atoi : Bytes → Option ℤ
unfolding digits
atoi [] = none
atoi (c ∷ s) =
    if c == b'-'
    then elim (digits s) [ none ↦ none | some n ↦ in_range (leb n (2 ^ 63)) (negative n) ]
    else elim (digits (if c == b'+' then s else c ∷ s)) [
      | none ↦ none
      | some n ↦ in_range (ltb n (2 ^ 63)) (pos n)
    ]

-- The decimal digits of a number, before the text `acc`; a digit for each unit of fuel.
unfoldable pub show_digits : ℕ → ℕ → Bytes → Bytes
show_digits zero n acc = acc
show_digits (suc fuel) n acc =
    let digit = b'0' + n % 10 in
    let more = show_digits fuel (n / 10) (digit ∷ acc) in if ltb n 10 then digit ∷ acc else more

-- `%d`
unfoldable pub show_nat : ℕ → Bytes
unfolding show_digits
show_nat n = show_digits (suc n) n []
