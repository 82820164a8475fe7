-- ===== src/Types/Containers/Prefix.antt =====
-- types/containers.go: `Find` by a text that is no key of the map. The loop counts keys, and a long
-- ID has two.
use container_web_tty.Base.{
  if◌then◌else◌, Bool-cases, Option-cases, length, take, length-take, Bytes, bytes_eq, bytes_eq_iff,
  bytes_eq_refl, has_prefix, has_prefix-take, has_prefix_of_take, Dict, lookup, insert,
  lookup-insert, ℕ, ◌+◌, ◌≤◌, ◌<◌, min, ◌≡◌, refl, ap, ◌≢◌, ◌⊎◌, inl, inr, true, none, some, List,
  [], ◌∷◌, arith,
}
use container_web_tty.Types.{no_container, Container}
use container_web_tty.Types.Containers.{
  Containers, init, set, find_by_prefix, put_all, find_in, find, put, scan,
}

-- The number of keys that begin with the text.
unfoldable pub hits : Bytes → Dict Container → ℕ
hits cid [] = 0
hits cid ((k, x) ∷ m) = (if has_prefix cid k then 1 else 0) + hits cid m

pub scan-hits :
    (cid : Bytes) (m : Dict Container) (l : ℕ) (rc : Container)
    → (scan cid m l rc).0 ≡ l + hits cid m
unfolding scan hits
scan-hits cid [] l rc = omega arith
scan-hits cid ((k, x) ∷ m) l rc = ground (arith, scan-hits cid m (l + 1) x, scan-hits cid m l rc)

pub hits-pos :
    (cid k : Bytes) (m : Dict Container)
    → lookup k m ≢ none
    → has_prefix cid k ≡ true
    → 0 < hits cid m
unfolding hits lookup
hits-pos cid k [] h p = absurd (h refl)
hits-pos cid k ((j, x) ∷ m) h p = ground (arith, bytes_eq_iff j k, hits-pos cid k m)

hits_two :
    (cid j k : Bytes) (m : Dict Container)
    → j ≢ k
    → lookup j m ≢ none
    → lookup k m ≢ none
    → has_prefix cid j ≡ true
    → has_prefix cid k ≡ true
    → 1 < hits cid m
unfolding hits lookup
hits_two cid j k [] d hj hk pj pk = absurd (hj refl)
hits_two cid j k ((i, x) ∷ m) d hj hk pj pk = ground (
  arith,
  bytes_eq_iff i j,
  bytes_eq_iff i k,
  hits-pos cid j m,
  hits-pos cid k m,
  hits_two cid j k m,
)

-- A counted key.
abbrev pub Hit : Bytes → Dict Container → Type 0
Hit cid m = (k : Bytes) × (x : Container) × (lookup k m ≡ some x) × (has_prefix cid k ≡ true)

Hit-cons : (cid j : Bytes) (y : Container) (m : Dict Container) → Hit cid m → Hit cid ((j, y) ∷ m)
unfolding lookup
Hit-cons cid j y m (k, x, e, p) = elim (Bool-cases (bytes_eq j k)) [
  | inl same ↦ (k, y, rw same, p)
  | inr other ↦ (k, x, rw other e, p)
]

pub Hit-of_pos : (cid : Bytes) (m : Dict Container) → 0 < hits cid m → Hit cid m
unfolding hits lookup
Hit-of_pos cid [] h = absurd (omega arith)
Hit-of_pos cid ((k, x) ∷ m) h = elim (Bool-cases (has_prefix cid k)) [
  | inl e ↦ (k, x, rw (bytes_eq_refl k), e)
  | inr e ↦ Hit-cons cid k x m (Hit-of_pos cid m (ground arith))
]

-- Every key belongs to a container with a long ID, and both keys of that are in the map.
abbrev IsPaired : Dict Container → Type 0
IsPaired m =
    (k : Bytes) (x : Container)
    → lookup k m ≡ some x
    → ((k ≡ x.id) ⊎ (k ≡ take 12 x.id))
      × (lookup x.id m ≢ none)
      × (lookup (take 12 x.id) m ≢ none)
      × (12 < length x.id)

put-IsPaired :
    (y : Container) (m : Dict Container) → 12 < length y.id → IsPaired m → IsPaired (put y m)
unfolding put
put-IsPaired y m l h k x e = ground (
  arith,
  h k x,
  lookup-insert k (take 12 y.id) y (insert y.id y m),
  lookup-insert k y.id y m,
  lookup-insert x.id (take 12 y.id) y (insert y.id y m),
  lookup-insert x.id y.id y m,
  lookup-insert (take 12 x.id) (take 12 y.id) y (insert y.id y m),
  lookup-insert (take 12 x.id) y.id y m,
  bytes_eq_iff (take 12 y.id) k,
  bytes_eq_iff y.id k,
  bytes_eq_iff y.id x.id,
  bytes_eq_iff (take 12 y.id) (take 12 x.id),
)

abbrev pub AllLong : List Container → Type 0
AllLong [] = Unit {0}
AllLong (x ∷ xs) = (12 < length x.id) × AllLong xs

put_all-IsPaired :
    (xs : List Container) (m : Dict Container) → AllLong xs → IsPaired m → IsPaired (put_all xs m)
unfolding put_all
put_all-IsPaired [] m a h = h
put_all-IsPaired (x ∷ xs) m a h = put_all-IsPaired xs (put x m) a.1 (put-IsPaired x m a.0 h)

nil-IsPaired : IsPaired []
unfolding lookup
nil-IsPaired k x e = cc

-- One hit by a text of at most twelve bytes is never the only one.
hits-ne-one : (cid : Bytes) (m : Dict Container) → length cid ≤ 12 → IsPaired m → hits cid m ≢ 1
hits-ne-one cid m l h e =
    let (k, x, found, p) = Hit-of_pos cid m (omega arith) in
    let (names, full, short, long) = h k x found in
    let len : length (take 12 x.id) ≡ min 12 (length x.id) = length-take 12 x.id in
    let differ : x.id ≢ take 12 x.id = λ same. omega (arith, ap length same) in
    elim names [
      | inl here ↦ omega (
        arith,
        hits_two cid x.id (take 12 x.id) m differ full short (rw (← here) p)
            (has_prefix-take 12 cid x.id (rw (← here) p) l),
      )
      | inr here ↦ omega (
        arith,
        hits_two cid x.id (take 12 x.id) m differ full short
            (has_prefix_of_take 12 cid x.id (rw here at p)) (rw here at p),
      )
    ]

find_in_short :
    (cid : Bytes) (m : Dict Container) → length cid < 12 → IsPaired m → find_in cid m ≡ no_container
unfolding find_in find_by_prefix
find_in_short cid m l h = elim (Option-cases (lookup cid m)) [
  | inl e ↦ rw (e, find_in) (ground (arith, scan-hits cid m 0 no_container, hits-ne-one cid m))
  | inr (x, e) ↦
      let (names, full, short, long) = h cid x e in
      let len : length (take 12 x.id) ≡ min 12 (length x.id) = length-take 12 x.id in
      absurd (elim names [
        | inl same ↦ omega (arith, ap length same)
        | inr same ↦ omega (arith, ap length same)
      ])
]

-- When every ID has more than twelve bytes, as Docker's and Kubernetes' have, `Find` by a text of
-- fewer than twelve bytes returns the zero value after `Set`, also where one container alone fits.
pub find-set_short :
    (xs : List Container) (s : Containers) (cid : Bytes)
    → AllLong xs
    → length cid < 12
    → find cid (set xs s) ≡ no_container
unfolding find set init
find-set_short xs s cid a l =
    ground (arith, find_in_short cid (put_all xs []) l (put_all-IsPaired xs [] a nil-IsPaired))
