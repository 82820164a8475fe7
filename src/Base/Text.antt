-- ===== src/Base/Text.antt =====
-- Go's `string` and `[]byte` as lists of bytes, and the functions of package `strings` that the
-- program calls, by their documentation.
use Prim.Native.Char.{code}
use Prim.Native.String.{String}
use Prim.Native.Nat.{ℕ, zero, suc, ◌≤◌}
use mathlib.Core.Path.{◌≡◌, refl}
use mathlib.Core.Logic.{◌↔◌}
use mathlib.Core.Bool.{Bool, true, false, ◌&&◌, ◌||◌}
use mathlib.Core.List.{List, [], ◌∷◌, ◌++◌}
use native.Mathlib.Omega.{arith}
use container_web_tty.Base.Tests.{◌==◌, if◌then◌else◌}
use container_web_tty.Base.Lists.{length, take, drop}

abbrev pub Bytes : Type 0
Bytes = List ℕ

-- A literal: the code points of an ASCII text are its bytes.
abbrev pub str : String → Bytes
str String.[] = []
str (String.◌∷◌ c s) = code c ∷ str s

unfoldable pub bytes_eq : Bytes → Bytes → Bool
bytes_eq [] [] = true
bytes_eq [] (y ∷ ys) = false
bytes_eq (x ∷ xs) [] = false
bytes_eq (x ∷ xs) (y ∷ ys) = (x == y) && bytes_eq xs ys

pub bytes_eq_iff : (xs ys : Bytes) → (bytes_eq xs ys ≡ true) ↔ (xs ≡ ys)
unfolding bytes_eq
bytes_eq_iff [] [] = (λ h. refl, λ h. refl)
bytes_eq_iff [] (y ∷ ys) = (λ h. cc, λ h. cc)
bytes_eq_iff (x ∷ xs) [] = (λ h. cc, λ h. cc)
bytes_eq_iff (x ∷ xs) (y ∷ ys) = ground (arith, bytes_eq_iff xs ys)

pub bytes_eq_refl : (xs : Bytes) → bytes_eq xs xs ≡ true
bytes_eq_refl xs = (bytes_eq_iff xs xs).1 refl

-- strings.HasPrefix, its arguments swapped: `has_prefix p s` says that `s` begins with `p`.
unfoldable pub has_prefix : Bytes → Bytes → Bool
has_prefix [] s = true
has_prefix (x ∷ p) [] = false
has_prefix (x ∷ p) (y ∷ s) = (x == y) && has_prefix p s

-- strings.TrimPrefix, its arguments swapped.
unfoldable pub trim_prefix : Bytes → Bytes → Bytes
unfolding has_prefix
trim_prefix p s = if has_prefix p s then drop (length p) s else s

pub has_prefix-append : (p s : Bytes) → has_prefix p (p ++ s) ≡ true
unfolding has_prefix
has_prefix-append [] s = refl
has_prefix-append (x ∷ p) s = ground (arith, has_prefix-append p s)

pub has_prefix-take :
    (n : ℕ) (p s : Bytes) → has_prefix p s ≡ true → length p ≤ n → has_prefix p (take n s) ≡ true
unfolding has_prefix
has_prefix-take n [] s h l = refl
has_prefix-take n (x ∷ p) [] h l = cc
has_prefix-take zero (x ∷ p) (y ∷ s) h l = absurd (omega arith)
has_prefix-take (suc n) (x ∷ p) (y ∷ s) h l = ground (arith, has_prefix-take n p s)

-- strings.Split at a separator of one byte. There is always at least one part.
unfoldable pub split : ℕ → Bytes → List Bytes
split sep [] = [] ∷ []
split sep (c ∷ s) = if c == sep then [] ∷ split sep s else cons_head c (split sep s)
  where
    cons_head : ℕ → List Bytes → List Bytes
    cons_head c [] = (c ∷ []) ∷ []
    cons_head c (w ∷ ws) = (c ∷ w) ∷ ws

-- strings.Join.
unfoldable pub join : Bytes → List Bytes → Bytes
join sep [] = []
join sep (w ∷ []) = w
join sep (w ∷ v ∷ ws) = w ++ (sep ++ join sep (v ∷ ws))

-- strings.Contains.
unfoldable pub contains : Bytes → Bytes → Bool
unfolding has_prefix
contains p [] = has_prefix p []
contains p (c ∷ s) = has_prefix p (c ∷ s) || contains p s

pub has_prefix_refl : (p : Bytes) → has_prefix p p ≡ true
unfolding has_prefix
has_prefix_refl [] = refl
has_prefix_refl (x ∷ p) = ground (arith, has_prefix_refl p)

pub has_prefix_of_take :
    (n : ℕ) (p s : Bytes) → has_prefix p (take n s) ≡ true → has_prefix p s ≡ true
unfolding has_prefix
has_prefix_of_take n [] s h = refl
has_prefix_of_take zero (x ∷ p) s h = cc
has_prefix_of_take (suc n) (x ∷ p) [] h = cc
has_prefix_of_take (suc n) (x ∷ p) (y ∷ s) h = ground (arith, has_prefix_of_take n p s)
