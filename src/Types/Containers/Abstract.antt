-- ===== src/Types/Containers/Abstract.antt =====
-- types/containers.go: the cache as a map without an order, which is a quotient of the lists that
-- model Go's maps.
use mathlib.Core.Quot
use mathlib.Core.Quot.{Quot}
use container_web_tty.Base.{
  leb, Bool-cases, Option-cases, length, take, Bytes, Dict, lookup, insert, NodupKeys,
  insert-NodupKeys, ◌≡◌, sym, ap, ◌∙◌, subst, ◌≢◌, inl, inr, true, Option, none, some, List, [],
  ◌∷◌, arith,
}
use container_web_tty.Types.{Container}
use mathlib.Core.List.{Memᴰ}
use container_web_tty.Types.Containers.{find_in, put, put_all, find, set, init, Containers}
use container_web_tty.Types.Containers.Exact.{names, last_named, lookup-put_all}
use container_web_tty.Types.Containers.Order.{SameMap, find_in_same}

-- A map of Go: a list with distinct keys.
abbrev pub GoMap : Type 0
GoMap = (m : Dict Container) × NodupKeys m

abbrev pub SameEntries : GoMap → GoMap → Type 0
SameEntries m m' = SameMap m.0 m'.0

abbrev pub Registry : Type 0
Registry = Quot SameEntries

Container_set : IsSet Container
Container_set = hlevel

-- `Find` on the cache without an order.
pub find_any : Bytes → Registry → Container
find_any cid =
    Quot.lift Container_set (λ m. find_in cid m.0) (λ m m' s. find_in_same cid m.0 m'.0 m.1 m'.1 s)

put-NodupKeys : (x : Container) (m : Dict Container) → NodupKeys m → NodupKeys (put x m)
unfolding put
put-NodupKeys x m u = elim (Bool-cases (leb 12 (length x.id))) [
  | inl long ↦
      rw (long, put)
        (insert-NodupKeys (take 12 x.id) x (insert x.id x m) (insert-NodupKeys x.id x m u))
  | inr short ↦ rw (short, put) (insert-NodupKeys x.id x m u)
]

put_all-NodupKeys :
    (xs : List Container) (m : Dict Container) → NodupKeys m → NodupKeys (put_all xs m)
unfolding put_all
put_all-NodupKeys [] m u = u
put_all-NodupKeys (x ∷ xs) m u = put_all-NodupKeys xs (put x m) (put-NodupKeys x m u)

-- The cache that `Set` fills.
pub registered : List Container → Registry
registered xs = Quot.mk (put_all xs [], put_all-NodupKeys xs [] tt)

-- No text names two different containers of the list.
abbrev pub IsUnambiguous : List Container → Type 0
IsUnambiguous xs =
    (k : Bytes) (x y : Container)
    → Memᴰ x xs
    → Memᴰ y xs
    → names k x ≡ true
    → names k y ≡ true
    → x ≡ y

-- The last container that a text names is in the list.
last_named-Mem :
    (k : Bytes) (y : Container) (xs : List Container)
    → last_named k xs ≡ some y
    → Memᴰ y xs × (names k y ≡ true)
unfolding last_named
last_named-Mem k y [] e = cc
last_named-Mem k y (x ∷ xs) e = elim (Option-cases (last_named k xs)) [
  | inl missing ↦ elim (Bool-cases (names k x)) [
    | inl named ↦
        let same : x ≡ y = ground arith in
        (Memᴰ.head (sym same), subst (λ (z : Container). names k z ≡ true) same named)
    | inr other ↦ absurd (ground arith)
  ]
  | inr (z, found) ↦
      let same : z ≡ y = ground arith in
      let h = last_named-Mem k y xs (found ∙ ap some same) in (Memᴰ.tail h.0, h.1)
]

-- Where a container of the list is named, there is a last one.
last_named-some :
    (k : Bytes) (x : Container) (xs : List Container)
    → Memᴰ x xs
    → names k x ≡ true
    → last_named k xs ≢ none
unfolding last_named
last_named-some k x [] i h = elim i [ ]
last_named-some k x (y ∷ xs) (Memᴰ.head e) h =
    let named : names k y ≡ true = subst (λ (z : Container). names k z ≡ true) e h in ground arith
last_named-some k x (y ∷ xs) (Memᴰ.tail i) h = let rest = last_named-some k x xs i h in ground arith

-- The lists have the same containers.
abbrev pub SameMembers : List Container → List Container → Type 0
SameMembers xs ys = (x : Container) → (Memᴰ x xs → Memᴰ x ys) × (Memᴰ x ys → Memᴰ x xs)

last_named_same :
    (k : Bytes) (xs ys : List Container)
    → IsUnambiguous xs
    → SameMembers xs ys
    → last_named k xs ≡ last_named k ys
last_named_same k xs ys u s = elim (Option-cases (last_named k xs)) [
  | inl none_here ↦ elim (Option-cases (last_named k ys)) [
    | inl none_there ↦ none_here ∙ sym none_there
    | inr (y, found) ↦
        let (i, h) = last_named-Mem k y ys found in
        absurd (last_named-some k y xs ((s y).1 i) h none_here)
  ]
  | inr (x, found) ↦
      let (i, h) = last_named-Mem k x xs found in
      elim (Option-cases (last_named k ys)) [
        | inl none_there ↦ absurd (last_named-some k x ys ((s x).0 i) h none_there)
        | inr (y, there) ↦
            let (j, g) = last_named-Mem k y ys there in
            found ∙ (ap some (u k x y i ((s y).1 j) h g) ∙ sym there)
      ]
]

find-set_any :
    (cid : Bytes) (xs : List Container) (s : Containers)
    → find cid (set xs s) ≡ find_any cid (registered xs)
unfolding find set init find_any registered
find-set_any cid xs s = elim (Bool-cases s.once) [
  | inl ready ↦ rw (ready, init)
  | inr fresh ↦ rw (fresh, init)
]

-- What the cache holds after `Set` depends only on which containers the list has, not on their order
-- or repetition, where no text names two different ones of them: the caches are the same as maps
-- without an order, and so is what `Find` returns on either.
pub registered_same :
    (xs ys : List Container)
    → IsUnambiguous xs
    → SameMembers xs ys
    → (registered xs ≡ registered ys)
      × ((cid : Bytes) (s : Containers) → find cid (set xs s) ≡ find cid (set ys s))
unfolding registered lookup
registered_same xs ys u s =
    let p : registered xs ≡ registered ys = Quot.sound same in
    (p, λ cid t. find-set_any cid xs t ∙ (ap (find_any cid) p ∙ sym (find-set_any cid ys t)))
  where
    same : (k : Bytes) → lookup k (put_all xs []) ≡ lookup k (put_all ys [])
    same k =
        lookup-put_all k xs []
        ∙ (ap (λ (o : Option Container). elim o [ some y ↦ some y | none ↦ none ])
              (last_named_same k xs ys u s)
            ∙ sym (lookup-put_all k ys []))
