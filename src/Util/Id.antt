-- ===== src/Util/Id.antt =====
-- util/id.go: `ID`, with encoding/base64's standard alphabet, crypto/md5's digest of the empty text
-- and the swaps of math/rand's `Shuffle`, whose numbers are a parameter.
pub mod Shuffling
pub mod Alphabet
mod Tests
use container_web_tty.Base.{
  ltb, if◌then◌else◌, length, get_elem?, take, Bytes, ℕ, zero, suc, ◌+◌, ◌-◌, ◌*◌, ◌/◌, ◌%◌, Option,
  none, some, [], ◌∷◌, ◌++◌,
}

-- The symbol of a number below 64: a letter, a digit, `+` or `/`.
unfoldable pub symbol : ℕ → ℕ
symbol v =
    if ltb v 26
    then v + 65
    else if ltb v 52
    then v + 71
    else if ltb v 62
    then v - 4
    else if ltb v 63
    then 43
    else 47

-- base64's `Encode`, of which `ID` uses only groups of three bytes.
unfoldable pub encode : Bytes → Bytes
unfolding symbol
encode (a ∷ b ∷ c ∷ more) =
    symbol (a / 4)
    ∷ symbol (a % 4 * 16 + b / 16)
    ∷ symbol (b % 16 * 4 + c / 64)
    ∷ symbol (c % 64)
    ∷ encode more
encode (a ∷ b ∷ []) = []
encode (a ∷ []) = []
encode [] = []

-- The digest of a hash that nothing was written to.
abbrev pub empty_digest : Bytes
empty_digest =
    212 ∷ 29 ∷ 140 ∷ 217 ∷ 143 ∷ 0 ∷ 178 ∷ 4 ∷ 233 ∷ 128 ∷ 9 ∷ 152 ∷ 236 ∷ 248 ∷ 66 ∷ 126 ∷ []

-- `b[i] = x`
unfoldable pub put_at : ℕ → ℕ → Bytes → Bytes
put_at i x [] = []
put_at zero x (y ∷ b) = x ∷ b
put_at (suc i) x (y ∷ b) = y ∷ put_at i x b

-- The function that `Shuffle` calls, where the two bytes are there; it has no index out of range.
unfoldable pub exchange : ℕ → ℕ → Option ℕ → Option ℕ → Bytes → Bytes
unfolding put_at
exchange i j (some x) (some y) b = put_at j x (put_at i y b)
exchange i j (some x) none b = b
exchange i j none y b = b

unfoldable pub swap : ℕ → ℕ → Bytes → Bytes
unfolding exchange
swap i j b = exchange i j (get_elem? b i) (get_elem? b j) b

-- `Shuffle` from the index `i` down to 1, with the random number of each.
unfoldable pub shuffle : (ℕ → ℕ) → ℕ → Bytes → Bytes
unfolding swap
shuffle random zero b = b
shuffle random (suc i) b = shuffle random i (swap (suc i) (random (suc i) % suc (suc i)) b)

abbrev pub min_length : ℕ
min_length = 15

-- What is encoded: the salt, or the salt before the digest, cut to the first bytes.
unfoldable pub source : Bytes → Bytes
source salt = take min_length (if ltb (length salt) min_length then salt ++ empty_digest else salt)

unfoldable pub id : (ℕ → ℕ) → Bytes → Bytes
unfolding encode shuffle source
id random salt = let b64 = encode (source salt) in shuffle random (length b64 - 1) b64
