-- ===== src/Types/Containers/Unique.antt =====
-- types/containers.go: `Find` by a text of more than twelve bytes, which is no short key.
use container_web_tty.Base.{
  if◌then◌else◌, Bool-cases, Option-cases, length, take, length-take, Bytes, bytes_eq_iff,
  bytes_eq_refl, has_prefix, has_prefix_refl, Dict, lookup, insert, lookup-insert, ◌+◌, ◌<◌, ◌≡◌,
  refl, sym, ◌∙◌, inl, inr, true, false, none, some, List, [], ◌∷◌, arith,
}
use container_web_tty.Types.{Container, no_container}
use container_web_tty.Types.Containers.{Containers, init, put, put_all, set, find_in, find}
use container_web_tty.Types.Containers.Prefix.{hits, hits-pos}
use container_web_tty.Types.Containers.Order.{find_by_prefix_one, scan_one}

-- The containers whose IDs begin with the text.
abbrev pub matching : Bytes → List Container → List Container
matching cid [] = []
matching cid (x ∷ xs) = if has_prefix cid x.id then x ∷ matching cid xs else matching cid xs

short_misses : (cid k : Bytes) → length k < length cid → has_prefix cid k ≡ false
unfolding has_prefix
short_misses [] k h = absurd (omega arith)
short_misses (c ∷ cid) [] h = refl
short_misses (c ∷ cid) (d ∷ k) h = ground (arith, short_misses cid k)

hits-insert_miss :
    (cid k : Bytes) (x : Container) (m : Dict Container)
    → has_prefix cid k ≡ false
    → hits cid (insert k x m) ≡ hits cid m
unfolding hits insert
hits-insert_miss cid k x [] h = ground arith
hits-insert_miss cid k x ((j, y) ∷ m) h =
    ground (arith, bytes_eq_iff j k, hits-insert_miss cid k x m h)

hits-insert_new :
    (cid k : Bytes) (x : Container) (m : Dict Container)
    → lookup k m ≡ none
    → has_prefix cid k ≡ true
    → hits cid (insert k x m) ≡ hits cid m + 1
unfolding hits insert lookup
hits-insert_new cid k x [] e h = ground arith
hits-insert_new cid k x ((j, y) ∷ m) e h = ground (arith, hits-insert_new cid k x m)

-- The short key of a container is shorter than the text.
short_key : (cid : Bytes) (x : Container) → 12 < length cid → has_prefix cid (take 12 x.id) ≡ false
short_key cid x h = short_misses cid (take 12 x.id) (omega (arith, length-take 12 x.id))

hits-put_miss :
    (cid : Bytes) (x : Container) (m : Dict Container)
    → 12 < length cid
    → has_prefix cid x.id ≡ false
    → hits cid (put x m) ≡ hits cid m
unfolding put
hits-put_miss cid x m l h = ground (
  arith,
  short_key cid x l,
  hits-insert_miss cid (take 12 x.id) x (insert x.id x m),
  hits-insert_miss cid x.id x m,
)

hits-put_new :
    (cid : Bytes) (x : Container) (m : Dict Container)
    → 12 < length cid
    → lookup x.id m ≡ none
    → has_prefix cid x.id ≡ true
    → hits cid (put x m) ≡ hits cid m + 1
unfolding put
hits-put_new cid x m l e h = ground (
  arith,
  short_key cid x l,
  hits-insert_miss cid (take 12 x.id) x (insert x.id x m),
  hits-insert_new cid x.id x m,
)

-- What a container with another ID leaves under a key that begins with the text.
lookup-put_other :
    (cid k : Bytes) (x : Container) (m : Dict Container)
    → 12 < length cid
    → has_prefix cid k ≡ true
    → has_prefix cid x.id ≡ false
    → lookup k (put x m) ≡ lookup k m
unfolding put
lookup-put_other cid k x m l p h = ground (
  arith,
  short_key cid x l,
  lookup-insert k (take 12 x.id) x (insert x.id x m),
  lookup-insert k x.id x m,
  bytes_eq_iff (take 12 x.id) k,
  bytes_eq_iff x.id k,
)

lookup-put_self :
    (cid : Bytes) (x : Container) (m : Dict Container)
    → 12 < length cid
    → has_prefix cid x.id ≡ true
    → lookup x.id (put x m) ≡ some x
unfolding put
lookup-put_self cid x m l p = ground (
  arith,
  short_key cid x l,
  lookup-insert x.id (take 12 x.id) x (insert x.id x m),
  lookup-insert x.id x.id x m,
  bytes_eq_refl x.id,
)

missing_of_hits :
    (cid k : Bytes) (m : Dict Container)
    → hits cid m ≡ 0
    → has_prefix cid k ≡ true
    → lookup k m ≡ none
missing_of_hits cid k m h p = elim (Option-cases (lookup k m)) [
  | inl e ↦ e
  | inr (x, e) ↦ absurd (omega (arith, hits-pos cid k m (λ gone. cc) p))
]

put_all_misses :
    (cid k : Bytes) (xs : List Container) (m : Dict Container)
    → 12 < length cid
    → has_prefix cid k ≡ true
    → matching cid xs ≡ []
    → (hits cid (put_all xs m) ≡ hits cid m) × (lookup k (put_all xs m) ≡ lookup k m)
unfolding put_all
put_all_misses cid k [] m l p h = (refl, refl)
put_all_misses cid k (x ∷ xs) m l p h = ground (
  arith,
  hits-put_miss cid x m l,
  lookup-put_other cid k x m l p,
  put_all_misses cid k xs (put x m) l p,
)

put_all_hit :
    (cid : Bytes) (x : Container) (xs : List Container) (m : Dict Container)
    → 12 < length cid
    → has_prefix cid x.id ≡ true
    → matching cid xs ≡ []
    → hits cid m ≡ 0
    → (hits cid (put_all xs (put x m)) ≡ 1) × (lookup x.id (put_all xs (put x m)) ≡ some x)
put_all_hit cid x xs m l p e h =
    let (count, kept) = put_all_misses cid x.id xs (put x m) l p e in
    (
      omega (arith, count, hits-put_new cid x m l (missing_of_hits cid x.id m h p) p),
      kept ∙ lookup-put_self cid x m l p,
    )

put_all_one :
    (cid : Bytes) (x : Container) (xs : List Container) (m : Dict Container)
    → 12 < length cid
    → has_prefix cid x.id ≡ true
    → matching cid xs ≡ x ∷ []
    → hits cid m ≡ 0
    → (hits cid (put_all xs m) ≡ 1) × (lookup x.id (put_all xs m) ≡ some x)
unfolding put_all
put_all_one cid x [] m l p e h = cc
put_all_one cid x (y ∷ ys) m l p e h = elim (Bool-cases (has_prefix cid y.id)) [
  | inl hit ↦
      let same : y ≡ x = ground arith in
      let others : matching cid ys ≡ [] = ground arith in
      rw same (put_all_hit cid x ys m l p others h)
  | inr miss ↦ ground (arith, hits-put_miss cid y m l miss, put_all_one cid x ys (put y m) l p)
]

matching-has_prefix :
    (cid : Bytes) (x : Container) (xs ys : List Container)
    → matching cid xs ≡ x ∷ ys
    → has_prefix cid x.id ≡ true
matching-has_prefix cid x [] ys e = cc
matching-has_prefix cid x (y ∷ xs) ys e = elim (Bool-cases (has_prefix cid y.id)) [
  | inl hit ↦ let same : y ≡ x = ground arith in rw (← same) hit
  | inr miss ↦ matching-has_prefix cid x xs ys (ground arith)
]

find_in_one :
    (cid : Bytes) (x : Container) (m : Dict Container)
    → has_prefix cid x.id ≡ true
    → hits cid m ≡ 1
    → lookup x.id m ≡ some x
    → find_in cid m ≡ x
unfolding find_in
find_in_one cid x m p h e = elim (Option-cases (lookup cid m)) [
  | inl none_there ↦ rw (none_there, find_in) (find_by_prefix_one cid x.id x m h e p)
  | inr (y, found) ↦
      rw (found, find_in)
        (sym (scan_one cid cid y m 0 no_container h found (has_prefix_refl cid))
          ∙ scan_one cid x.id x m 0 no_container h e p)
]

no_hits : (cid : Bytes) → hits cid [] ≡ 0
unfolding hits
no_hits cid = refl

-- After `Set`, `Find` by a text of more than twelve bytes returns the container whose ID begins with
-- the text, where there is exactly one in the list.
pub find-set_unique :
    (xs : List Container) (s : Containers) (cid : Bytes) (x : Container)
    → 12 < length cid
    → matching cid xs ≡ x ∷ []
    → find cid (set xs s) ≡ x
unfolding find set init
find-set_unique xs s cid x l e =
    let p = matching-has_prefix cid x xs [] e in
    let (count, found) = put_all_one cid x xs [] l p e (no_hits cid) in
    ground (arith, find_in_one cid x (put_all xs []) p count found)
