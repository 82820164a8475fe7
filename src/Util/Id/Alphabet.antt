-- ===== src/Util/Id/Alphabet.antt =====
-- util/id.go: the length and the characters of an ID.
use container_web_tty.Base.{
  All, All-take, ltb, Bool-cases, length, get_elem?, take, length-append, length-take, Bytes, ℕ,
  zero, suc, ◌+◌, ◌-◌, ◌*◌, ◌/◌, ◌%◌, ◌≤◌, ◌<◌, ◌≡◌, refl, ◌∙◌, subst, ◌⊎◌, inl, inr, false, Option,
  none, some, [], ◌∷◌, ◌++◌, arith,
}
use container_web_tty.Util.Id.{
  symbol, put_at, exchange, swap, shuffle, empty_digest, source, id, encode,
}
use container_web_tty.Util.Id.Shuffling.{length-shuffle}

-- A letter or a digit.
abbrev pub IsAlphanumeric : ℕ → Type 0
IsAlphanumeric c = ((48 ≤ c) × (c ≤ 57)) ⊎ ((65 ≤ c) × (c ≤ 90)) ⊎ ((97 ≤ c) × (c ≤ 122))

-- A character of base64: a letter, a digit, `+` or `/`.
abbrev pub IsBase64 : ℕ → Type 0
IsBase64 c = IsAlphanumeric c ⊎ (c ≡ 43) ⊎ (c ≡ 47)

-- A digit of a container's hexadecimal ID.
abbrev pub IsHex : ℕ → Type 0
IsHex c = ((48 ≤ c) × (c ≤ 57)) ⊎ ((97 ≤ c) × (c ≤ 102))

symbol-IsBase64 : (v : ℕ) → IsBase64 (symbol v)
unfolding symbol
symbol-IsBase64 v = ground arith

symbol-IsAlphanumeric : (v : ℕ) → v < 62 → IsAlphanumeric (symbol v)
unfolding symbol
symbol-IsAlphanumeric v h = ground arith

encode-IsBase64 : (b : Bytes) → All IsBase64 (encode b)
unfolding encode
encode-IsBase64 [] = tt
encode-IsBase64 (x ∷ []) = tt
encode-IsBase64 (x ∷ y ∷ []) = tt
encode-IsBase64 (x ∷ y ∷ z ∷ b) = (
  symbol-IsBase64 (x / 4),
  (
    symbol-IsBase64 (x % 4 * 16 + y / 16),
    (symbol-IsBase64 (y % 16 * 4 + z / 64), (symbol-IsBase64 (z % 64), encode-IsBase64 b)),
  ),
)

-- No three hexadecimal digits make one of the last two symbols.
first_small : (x : ℕ) → IsHex x → x / 4 < 62
first_small x h = omega arith

second_small : (x y : ℕ) → IsHex y → x % 4 * 16 + y / 16 < 62
second_small x y h = omega arith

third_small : (y z : ℕ) → IsHex y → IsHex z → y % 16 * 4 + z / 64 < 62
third_small y z g h = omega arith

last_small : (z : ℕ) → IsHex z → z % 64 < 62
last_small z h = omega arith

encode-IsAlphanumeric : (b : Bytes) → All IsHex b → All IsAlphanumeric (encode b)
unfolding encode
encode-IsAlphanumeric [] h = tt
encode-IsAlphanumeric (x ∷ []) h = tt
encode-IsAlphanumeric (x ∷ y ∷ []) h = tt
encode-IsAlphanumeric (x ∷ y ∷ z ∷ b) (hx, (hy, (hz, h))) = (
  symbol-IsAlphanumeric _ (first_small x hx),
  (
    symbol-IsAlphanumeric _ (second_small x y hy),
    (
      symbol-IsAlphanumeric _ (third_small y z hy hz),
      (symbol-IsAlphanumeric _ (last_small z hz), encode-IsAlphanumeric b h),
    ),
  ),
)

module _ (P : ℕ → Type 0) where
  All-put_at : (i x : ℕ) (b : Bytes) → P x → All P b → All P (put_at i x b)
  unfolding put_at
  All-put_at i x [] p h = tt
  All-put_at zero x (y ∷ b) p h = (p, h.1)
  All-put_at (suc i) x (y ∷ b) p h = (h.0, All-put_at i x b p h.1)

  All-get_elem? : (i x : ℕ) (b : Bytes) → get_elem? b i ≡ some x → All P b → P x
  All-get_elem? i x [] e h = cc
  All-get_elem? zero x (y ∷ b) e h = (let same : y ≡ x = cc in subst P same h.0)
  All-get_elem? (suc i) x (y ∷ b) e h = All-get_elem? i x b e h.1

  All-exchange :
      (i j : ℕ) (u v : Option ℕ) (b : Bytes)
      → get_elem? b i ≡ u
      → get_elem? b j ≡ v
      → All P b
      → All P (exchange i j u v b)
  unfolding exchange
  All-exchange i j (some x) (some y) b e f h =
      All-put_at j x (put_at i y b) (All-get_elem? i x b e h)
        (All-put_at i y b (All-get_elem? j y b f h) h)
  All-exchange i j (some x) none b e f h = h
  All-exchange i j none v b e f h = h

  All-shuffle : (random : ℕ → ℕ) (i : ℕ) (b : Bytes) → All P b → All P (shuffle random i b)
  unfolding shuffle swap
  All-shuffle random zero b h = h
  All-shuffle random (suc i) b h = All-shuffle random i _ (All-exchange (suc i) _ _ _ b refl refl h)

length-encode : (n : ℕ) (b : Bytes) → length b ≡ 3 * n → length (encode b) ≡ 4 * n
unfolding encode
length-encode n [] h = omega arith
length-encode n (x ∷ []) h = absurd (omega arith)
length-encode n (x ∷ y ∷ []) h = absurd (omega arith)
length-encode zero (x ∷ y ∷ z ∷ b) h = absurd (omega arith)
length-encode (suc n) (x ∷ y ∷ z ∷ b) h = omega (arith, length-encode n b (omega arith))

length-source : (salt : Bytes) → length (source salt) ≡ 15
unfolding source
length-source salt = elim (Bool-cases (ltb (length salt) 15)) [
  | inl short ↦ rw short (
      length-take 15 (salt ++ empty_digest)
      ∙ (let l = length-append salt empty_digest in omega arith))
  | inr long ↦ rw long (length-take 15 salt ∙ ground arith)
]

-- Whatever the salt and the random numbers, an ID has twenty characters of base64's alphabet.
pub id-IsBase64 :
    (random : ℕ → ℕ) (salt : Bytes) → (length (id random salt) ≡ 20) × All IsBase64 (id random salt)
unfolding id
id-IsBase64 random salt = (
  length-shuffle random (length (encode (source salt)) - 1) (encode (source salt))
      ∙ length-encode 5 (source salt) (length-source salt),
  All-shuffle IsBase64 random (length (encode (source salt)) - 1) _ (encode-IsBase64 (source salt)),
)

-- The ID made from a hexadecimal text of at least fifteen digits, such as the ID of a container, has
-- only letters and digits: it is one segment of a URL's path.
pub id-IsAlphanumeric :
    (random : ℕ → ℕ) (salt : Bytes)
    → 15 ≤ length salt
    → All IsHex salt
    → All IsAlphanumeric (id random salt)
unfolding id source
id-IsAlphanumeric random salt l h =
    let long : ltb (length salt) 15 ≡ false = ground arith in
    rw long (
      All-shuffle IsAlphanumeric random (length (encode (take 15 salt)) - 1) _
        (encode-IsAlphanumeric (take 15 salt) (All-take IsHex 15 salt h)))
