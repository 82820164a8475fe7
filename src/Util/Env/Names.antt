-- ===== src/Util/Env/Names.antt =====
-- util/util.go: different flags have different environment variables.
use container_web_tty.Base.{All, drop, Bytes, ℕ, ◌≤◌, ◌≡◌, refl, ap, ◌⊎◌, List, [], ◌∷◌, map, arith}
use container_web_tty.Util.Env.{env_vars, upper_char, underscore}

-- A character of a flag's name: a lower-case letter, a digit or a dash.
abbrev pub IsFlagChar : ℕ → Type 0
IsFlagChar c = ((97 ≤ c) × (c ≤ 122)) ⊎ ((48 ≤ c) × (c ≤ 57)) ⊎ (c ≡ 45)

same_char :
    (c d : ℕ)
    → IsFlagChar c
    → IsFlagChar d
    → underscore (upper_char c) ≡ underscore (upper_char d)
    → c ≡ d
same_char c d hc hd e = ground arith

head_eq : {x y : ℕ} → {xs ys : Bytes} → x ∷ xs ≡ y ∷ ys → x ≡ y
head_eq e = cc

tail_eq : {x y : ℕ} → {xs ys : Bytes} → x ∷ xs ≡ y ∷ ys → xs ≡ ys
tail_eq e = cc

same_name :
    (a b : Bytes)
    → All IsFlagChar a
    → All IsFlagChar b
    → map underscore (map upper_char a) ≡ map underscore (map upper_char b)
    → a ≡ b
same_name [] [] ha hb e = refl
same_name [] (d ∷ b) ha hb e = cc
same_name (c ∷ a) [] ha hb e = cc
same_name (c ∷ a) (d ∷ b) (hc, ha) (hd, hb) e =
    let first = same_char c d hc hd (head_eq e) in let rest = same_name a b ha hb (tail_eq e) in cc

abbrev first : List Bytes → Bytes
first [] = []
first (b ∷ bs) = b

-- Flags with different names, of lower-case letters, digits and dashes, are read from different
-- environment variables.
pub env_vars-injective :
    (a b : Bytes) → All IsFlagChar a → All IsFlagChar b → env_vars a ≡ env_vars b → a ≡ b
unfolding env_vars
env_vars-injective a b ha hb e = same_name a b ha hb (ap (λ (l : List Bytes). drop 8 (first l)) e)
