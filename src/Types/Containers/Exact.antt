-- ===== src/Types/Containers/Exact.antt =====
-- types/containers.go: `Find` by a full ID or by its first twelve bytes.
use container_web_tty.Base.{
  leb, if◌then◌else◌, length, take, Bytes, bytes_eq, Dict, lookup, insert, lookup-insert, ◌≡◌, refl,
  Bool, ◌&&◌, ◌||◌, Option, none, some, List, [], ◌∷◌, arith,
}
use container_web_tty.Types.{Container}
use container_web_tty.Types.Containers.{init, Containers, put, put_all, set, find_in, find}

-- The text is the ID, or the first twelve bytes of it.
abbrev pub names : Bytes → Container → Bool
names cid x = bytes_eq x.id cid || (leb 12 (length x.id) && bytes_eq (take 12 x.id) cid)

-- The last container of the list that the text names.
unfoldable pub last_named : Bytes → List Container → Option Container
last_named cid [] = none
last_named cid (x ∷ xs) = elim (last_named cid xs) [
  | some y ↦ some y
  | none ↦ if names cid x then some x else none
]

pub lookup-put :
    (k : Bytes) (x : Container) (m : Dict Container)
    → lookup k (put x m) ≡ (if names k x then some x else lookup k m)
unfolding put
lookup-put k x m =
    ground (arith, lookup-insert k (take 12 x.id) x (insert x.id x m), lookup-insert k x.id x m)

pub lookup-put_all :
    (k : Bytes) (xs : List Container) (m : Dict Container)
    → lookup k (put_all xs m) ≡ elim (last_named k xs) [ some y ↦ some y | none ↦ lookup k m ]
unfolding put_all last_named
lookup-put_all k [] m = refl
lookup-put_all k (x ∷ xs) m = ground (arith, lookup-put_all k xs (put x m), lookup-put k x m)

find_in_found :
    (cid : Bytes) (m : Dict Container) (x : Container) → lookup cid m ≡ some x → find_in cid m ≡ x
unfolding find_in
find_in_found cid m x e = rw (e, find_in)

-- After `Set`, `Find` by a full ID or by twelve bytes returns the last container of that name.
pub find-set :
    (xs : List Container) (s : Containers) (cid : Bytes) (x : Container)
    → last_named cid xs ≡ some x
    → find cid (set xs s) ≡ x
unfolding find set init
find-set xs s cid x e =
    ground (arith, find_in_found cid (put_all xs []) x, lookup-put_all cid xs [])
