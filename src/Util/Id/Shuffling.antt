-- ===== src/Util/Id/Shuffling.antt =====
-- util/id.go: the shuffle keeps the bytes.
use container_web_tty.Base.{
  ◌==◌, if◌then◌else◌, length, get_elem?, Bytes, ℕ, zero, suc, ◌+◌, ◌-◌, ◌≡◌, refl, sym, ap, ◌∙◌,
  Option, none, some, [], ◌∷◌, arith,
}
use container_web_tty.Util.Id.{put_at, swap, exchange, shuffle, source, id, encode}

-- How often a byte occurs.
unfoldable pub count : ℕ → Bytes → ℕ
count c [] = 0
count c (x ∷ b) = (if x == c then 1 else 0) + count c b

length-put_at : (i x : ℕ) (b : Bytes) → length (put_at i x b) ≡ length b
unfolding put_at
length-put_at i x [] = refl
length-put_at zero x (y ∷ b) = refl
length-put_at (suc i) x (y ∷ b) = ap suc (length-put_at i x b)

-- The byte that is overwritten goes, the new one comes.
count-put_at :
    (c i x y : ℕ) (b : Bytes)
    → get_elem? b i ≡ some y
    → count c (put_at i x b) + (if y == c then 1 else 0) ≡ count c b + (if x == c then 1 else 0)
unfolding count put_at
count-put_at c i x y [] e = cc
count-put_at c zero x y (z ∷ b) e = ground arith
count-put_at c (suc i) x y (z ∷ b) e = omega (arith, count-put_at c i x y b e)

-- What stands at an index after an assignment.
get_elem?-put_at :
    (i j x y z : ℕ) (b : Bytes)
    → get_elem? b i ≡ some z
    → get_elem? b j ≡ some y
    → get_elem? (put_at i y b) j ≡ some y
unfolding put_at
get_elem?-put_at i j x y z [] e f = cc
get_elem?-put_at zero zero x y z (w ∷ b) e f = refl
get_elem?-put_at zero (suc j) x y z (w ∷ b) e f = f
get_elem?-put_at (suc i) zero x y z (w ∷ b) e f = f
get_elem?-put_at (suc i) (suc j) x y z (w ∷ b) e f = get_elem?-put_at i j x y z b e f

count-exchange :
    (c i j : ℕ) (u v : Option ℕ) (b : Bytes)
    → get_elem? b i ≡ u
    → get_elem? b j ≡ v
    → count c (exchange i j u v b) ≡ count c b
unfolding exchange
count-exchange c i j (some x) (some y) b e f = omega (
  arith,
  count-put_at c j x y (put_at i y b) (get_elem?-put_at i j x y x b e f),
  count-put_at c i y x b e,
)
count-exchange c i j (some x) none b e f = refl
count-exchange c i j none v b e f = refl

length-exchange : (i j : ℕ) (u v : Option ℕ) (b : Bytes) → length (exchange i j u v b) ≡ length b
unfolding exchange
length-exchange i j (some x) (some y) b = length-put_at j x (put_at i y b) ∙ length-put_at i y b
length-exchange i j (some x) none b = refl
length-exchange i j none v b = refl

pub length-shuffle : (random : ℕ → ℕ) (i : ℕ) (b : Bytes) → length (shuffle random i b) ≡ length b
unfolding shuffle swap
length-shuffle random zero b = refl
length-shuffle random (suc i) b = length-shuffle random i _ ∙ length-exchange (suc i) _ _ _ b

pub count-shuffle :
    (c : ℕ) (random : ℕ → ℕ) (i : ℕ) (b : Bytes) → count c (shuffle random i b) ≡ count c b
unfolding shuffle swap
count-shuffle c random zero b = refl
count-shuffle c random (suc i) b =
    count-shuffle c random i _ ∙ count-exchange c (suc i) _ _ _ b refl refl

-- Whatever the random numbers are, an ID has each character as often as the encoded text: two IDs
-- of salts with the same first fifteen bytes are rearrangements of each other.
pub id-rearranges :
    (c : ℕ) (random random' : ℕ → ℕ) (salt salt' : Bytes)
    → source salt ≡ source salt'
    → count c (id random salt) ≡ count c (id random' salt')
unfolding id
id-rearranges c random random' salt salt' e =
    count-shuffle c random (length (encode (source salt)) - 1) _
    ∙ (ap (λ (s : Bytes). count c (encode s)) e
        ∙ sym (count-shuffle c random' (length (encode (source salt')) - 1) _))
