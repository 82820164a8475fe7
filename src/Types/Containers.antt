-- ===== src/Types/Containers.antt =====
-- types/containers.go: the cache of known containers. `c` is the map, under the full ID and under
-- its first twelve bytes; `cs` is the slice. Each method that takes the mutex holds it for its
-- whole body, so a method is one step. `once` is the flag of `sync.Once`.
pub mod Find
mod Prefix
pub mod Exact
mod Unique
pub mod Order
mod Abstract
mod Client
mod Tests
use container_web_tty.Base.{
  leb, ◌==◌, if◌then◌else◌, length, take, is_empty, Bytes, has_prefix, Dict, lookup, insert, ℕ, ◌+◌,
  Bool, true, false, none, some, List, [], ◌∷◌, ◌++◌,
}
use container_web_tty.Types.{Container, no_container}

pub record Containers : Type 0 where
  pub c : Dict Container
  pub cs : List Container
  pub once : Bool

-- `&Containers{}`: a nil map reads as an empty one.
abbrev pub no_containers : Containers
no_containers = record { c = []; cs = []; once = false }

unfoldable pub init : Containers → Containers
init s = if s.once then s else record s { c = []; once = true }

unfoldable pub list : Containers → List Container
unfolding init
list s = (init s).cs

unfoldable pub len : Containers → ℕ
unfolding init
len s = length (init s).c

-- `m[c.ID] = c`, and the same under the first twelve bytes of a long ID.
unfoldable pub put : Container → Dict Container → Dict Container
put x m =
    let m' = insert x.id x m in if leb 12 (length x.id) then insert (take 12 x.id) x m' else m'

-- The loop of `Set`.
unfoldable pub put_all : List Container → Dict Container → Dict Container
put_all [] m = m
put_all (x ∷ xs) m = put_all xs (put x m)

unfoldable pub set : List Container → Containers → Containers
unfolding init
set containers s = record (init s) { c = put_all containers []; cs = containers }

unfoldable pub append : Container → Containers → Containers
unfolding init
append x s =
    let s' = init s in
    if is_empty x.id then s' else record s' { c = put x s'.c; cs = s'.cs ++ x ∷ [] }

-- The loop of `Find` over the map: the number of keys that begin with `cID`, and the last of them.
unfoldable pub scan : Bytes → Dict Container → ℕ → Container → ℕ × Container
scan cid [] l rc = (l, rc)
scan cid ((k, info) ∷ m) l rc =
    scan cid m (if has_prefix cid k then l + 1 else l) (if has_prefix cid k then info else rc)

-- The result of `Find` when the key itself is not in the map.
unfoldable pub find_by_prefix : Bytes → Dict Container → Container
unfolding scan
find_by_prefix cid m =
    let (l, rc) = scan cid m 0 no_container in if l == 1 then rc else no_container

unfoldable pub find_in : Bytes → Dict Container → Container
unfolding find_by_prefix
find_in cid m = elim (lookup cid m) [ some x ↦ x | none ↦ find_by_prefix cid m ]

-- `init` changes nothing that `Find` reads later, so only the container is returned.
unfoldable pub find : Bytes → Containers → Container
unfolding init find_in
find cid s = find_in cid (init s).c

unfoldable pub set_shell : Bytes → Bytes → Containers → Containers
unfolding init
set_shell cid shell s =
    let s' = init s in
    elim (lookup cid s'.c) [
      | some x ↦ record s' { c = insert cid (record x { shell = shell }) s'.c }
      | none ↦ s'
    ]
