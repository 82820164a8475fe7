-- ===== src/Types/Containers/Order.antt =====
-- types/containers.go: Go iterates a map in an order of its own choice. `Find` by a prefix does not
-- depend on it.
use container_web_tty.Base.{
  ◌==◌, if◌then◌else◌, Bool-cases, Option-cases, Bytes, bytes_eq_iff, bytes_eq_refl, has_prefix,
  Dict, lookup, erase, lookup-erase, NodupKeys, ℕ, ◌+◌, ◌≡◌, refl, sym, ◌∙◌, ◌≢◌, inl, inr, true,
  none, some, [], ◌∷◌, arith,
}
use container_web_tty.Types.{Container, no_container}
use container_web_tty.Types.Containers.{scan, find_by_prefix, find_in}
use container_web_tty.Types.Containers.Prefix.{hits, scan-hits, hits-pos, Hit-of_pos}

-- The same map, listed in another order.
abbrev pub SameMap : Dict Container → Dict Container → Type 0
SameMap m m' = (k : Bytes) → lookup k m ≡ lookup k m'

erase-NodupKeys : (k : Bytes) (m : Dict Container) → NodupKeys m → NodupKeys (erase k m)
unfolding erase
erase-NodupKeys k [] u = tt
erase-NodupKeys k ((j, x) ∷ m) u =
    ground (arith, erase-NodupKeys k m u.1, lookup-erase j k m, bytes_eq_iff k j, bytes_eq_iff j k)

erase_missing : (k : Bytes) (m : Dict Container) → lookup k m ≡ none → erase k m ≡ m
unfolding erase lookup
erase_missing k [] e = refl
erase_missing k ((j, x) ∷ m) e = ground (arith, erase_missing k m)

hits-erase :
    (cid k : Bytes) (x : Container) (m : Dict Container)
    → NodupKeys m
    → lookup k m ≡ some x
    → hits cid m ≡ (if has_prefix cid k then 1 else 0) + hits cid (erase k m)
unfolding hits erase lookup
hits-erase cid k x [] u e = cc
hits-erase cid k x ((j, y) ∷ m) u e =
    ground (arith, bytes_eq_iff j k, erase_missing j m u.0, hits-erase cid k x m u.1)

SameMap-nil : (m : Dict Container) → SameMap [] m → m ≡ []
unfolding lookup
SameMap-nil [] s = refl
SameMap-nil ((j, x) ∷ m) s = let here = s j in ground (arith, bytes_eq_refl j)

SameMap-erase :
    (k : Bytes) (x : Container) (m m' : Dict Container)
    → lookup k m ≡ none
    → SameMap ((k, x) ∷ m) m'
    → SameMap m (erase k m')
unfolding lookup
SameMap-erase k x m m' u s j = ground (arith, s j, lookup-erase j k m', bytes_eq_iff k j)

hits_same :
    (cid : Bytes) (m m' : Dict Container)
    → NodupKeys m
    → NodupKeys m'
    → SameMap m m'
    → hits cid m ≡ hits cid m'
unfolding hits lookup
hits_same cid [] m' u u' s = rw (SameMap-nil m' s)
hits_same cid ((k, x) ∷ m) m' u u' s =
    let found : lookup k m' ≡ some x = ground (arith, s k, bytes_eq_refl k) in
    omega (
      arith,
      hits-erase cid k x m' u' found,
      hits_same cid m (erase k m') u.1 (erase-NodupKeys k m' u') (SameMap-erase k x m m' u.0 s),
    )

scan_misses :
    (cid : Bytes) (m : Dict Container) (l : ℕ) (rc : Container)
    → hits cid m ≡ 0
    → (scan cid m l rc).1 ≡ rc
unfolding scan hits
scan_misses cid [] l rc h = refl
scan_misses cid ((k, x) ∷ m) l rc h = ground (arith, scan_misses cid m l rc)

-- Where one key alone begins with the text, the loop ends with its container.
pub scan_one :
    (cid k : Bytes) (x : Container) (m : Dict Container) (l : ℕ) (rc : Container)
    → hits cid m ≡ 1
    → lookup k m ≡ some x
    → has_prefix cid k ≡ true
    → (scan cid m l rc).1 ≡ x
unfolding scan hits lookup
scan_one cid k x [] l rc h e p = cc
scan_one cid k x ((j, y) ∷ m) l rc h e p = ground (
  arith,
  bytes_eq_iff j k,
  hits-pos cid k m,
  scan_misses cid m (l + 1) y,
  scan_one cid k x m l rc,
  scan_one cid k x m (l + 1) y,
)

pub find_by_prefix_one :
    (cid k : Bytes) (x : Container) (m : Dict Container)
    → hits cid m ≡ 1
    → lookup k m ≡ some x
    → has_prefix cid k ≡ true
    → find_by_prefix cid m ≡ x
unfolding find_by_prefix
find_by_prefix_one cid k x m h e p =
    ground (arith, scan-hits cid m 0 no_container, scan_one cid k x m 0 no_container h e p)

pub find_by_prefix_none :
    (cid : Bytes) (m : Dict Container) → hits cid m ≢ 1 → find_by_prefix cid m ≡ no_container
unfolding find_by_prefix
find_by_prefix_none cid m h = ground (arith, scan-hits cid m 0 no_container)

find_by_prefix_same :
    (cid : Bytes) (m m' : Dict Container)
    → NodupKeys m
    → NodupKeys m'
    → SameMap m m'
    → find_by_prefix cid m ≡ find_by_prefix cid m'
find_by_prefix_same cid m m' u u' s =
    let count = hits_same cid m m' u u' s in
    elim (Bool-cases (hits cid m == 1)) [
      | inl one ↦
          let only : hits cid m ≡ 1 = ground arith in
          let (k, x, e, p) = Hit-of_pos cid m (omega arith) in
          find_by_prefix_one cid k x m only e p
          ∙ sym (find_by_prefix_one cid k x m' (sym count ∙ only) (sym (s k) ∙ e) p)
      | inr other ↦
          let several : hits cid m ≢ 1 = ground arith in
          find_by_prefix_none cid m several
          ∙ sym (find_by_prefix_none cid m' (λ h. several (count ∙ h)))
    ]

-- `Find` gives the same container in whatever order Go iterates over the map.
pub find_in_same :
    (cid : Bytes) (m m' : Dict Container)
    → NodupKeys m
    → NodupKeys m'
    → SameMap m m'
    → find_in cid m ≡ find_in cid m'
unfolding find_in
find_in_same cid m m' u u' s = elim (Option-cases (lookup cid m)) [
  | inl e ↦ rw (e, sym (s cid) ∙ e, find_in) (find_by_prefix_same cid m m' u u' s)
  | inr (x, e) ↦ rw (e, sym (s cid) ∙ e, find_in)
]
