-- ===== src/Types/Containers/Find.antt =====
-- types/containers.go: what `Find` returns from a cache that `Set`, `Append` and `SetShell` built.
use container_web_tty.Base.{
  leb, leb→le, Bool-cases, Option-cases, length, take, is_empty, Bytes, bytes_eq_iff, has_prefix,
  has_prefix_refl, has_prefix_of_take, Dict, lookup, insert, NodupKeys, insert-NodupKeys, ℕ, ◌+◌,
  ◌≤◌, ◌≡◌, refl, ◌⊎◌, inl, inr, true, some, List, [], ◌∷◌, arith,
}
use container_web_tty.Types.{no_container, Container}
use container_web_tty.Types.Containers.{
  no_containers, set_shell, set, scan, init, find_in, find, append, Containers, put, put_all,
}

-- The keys of a container: its ID, and the first twelve bytes of a long one.
abbrev pub Names : Bytes → Container → Type 0
Names k x = (k ≡ x.id) ⊎ ((k ≡ take 12 x.id) × (12 ≤ length x.id))

abbrev pub AllNamed : Dict Container → Type 0
AllNamed [] = Unit {0}
AllNamed ((k, x) ∷ m) = Names k x × AllNamed m

-- Every key of the map is a name of the container that stands under it, and no key stands twice.
pub record IsIndexed (m : Dict Container) : Type 0 where
  pub named : AllNamed m
  pub nodup : NodupKeys m

insert-AllNamed :
    (k : Bytes) (x : Container) (m : Dict Container)
    → Names k x
    → AllNamed m
    → AllNamed (insert k x m)
unfolding insert
insert-AllNamed k x [] n a = (n, tt)
insert-AllNamed k x ((j, y) ∷ m) n a = ground (arith, insert-AllNamed k x m n a.1)

insert-IsIndexed :
    (k : Bytes) (x : Container) (m : Dict Container)
    → Names k x
    → IsIndexed m
    → IsIndexed (insert k x m)
insert-IsIndexed k x m n h = record {
  named = insert-AllNamed k x m n h.named;
  nodup = insert-NodupKeys k x m h.nodup;
}

pub put-IsIndexed : (x : Container) (m : Dict Container) → IsIndexed m → IsIndexed (put x m)
unfolding put
put-IsIndexed x m h = elim (Bool-cases (leb 12 (length x.id))) [
  | inl long ↦ rw long (
      insert-IsIndexed (take 12 x.id) x _ (inr (refl, leb→le 12 (length x.id) long))
        (insert-IsIndexed x.id x m (inl refl) h))
  | inr short ↦ rw short (insert-IsIndexed x.id x m (inl refl) h)
]

put_all-IsIndexed :
    (xs : List Container) (m : Dict Container) → IsIndexed m → IsIndexed (put_all xs m)
unfolding put_all
put_all-IsIndexed [] m h = h
put_all-IsIndexed (x ∷ xs) m h = put_all-IsIndexed xs (put x m) (put-IsIndexed x m h)

no_names : IsIndexed []
no_names = record { named = tt; nodup = tt }

named_of_lookup :
    (k : Bytes) (m : Dict Container) (x : Container) → AllNamed m → lookup k m ≡ some x → Names k x
unfolding lookup
named_of_lookup k [] x a e = cc
named_of_lookup k ((j, y) ∷ m) x a e = ground (arith, bytes_eq_iff j k, named_of_lookup k m x a.1)

-- The calls that change the cache.
pub data Call : Type 0 where
  sets : List Container → Call
  appends : Container → Call
  sets_shell : Bytes → Bytes → Call

unfoldable pub step : Containers → Call → Containers
step s (sets xs) = set xs s
step s (appends x) = append x s
step s (sets_shell cid shell) = set_shell cid shell s

unfoldable pub run : Containers → List Call → Containers
run s [] = s
run s (c ∷ cs) = run (step s c) cs

init-IsIndexed : (s : Containers) → IsIndexed s.c → IsIndexed (init s).c
unfolding init
init-IsIndexed s h = ground (arith, no_names)

append-IsIndexed : (x : Container) (s : Containers) → IsIndexed s.c → IsIndexed (append x s).c
unfolding append
append-IsIndexed x s h = elim (Bool-cases (is_empty x.id)) [
  | inl e ↦ rw e (init-IsIndexed s h)
  | inr e ↦ rw e (put-IsIndexed x (init s).c (init-IsIndexed s h))
]

set_shell-IsIndexed :
    (cid shell : Bytes) (s : Containers) → IsIndexed s.c → IsIndexed (set_shell cid shell s).c
unfolding set_shell
set_shell-IsIndexed cid shell s h = elim (Option-cases (lookup cid (init s).c)) [
  | inl e ↦ rw (e, set_shell) (init-IsIndexed s h)
  | inr (x, e) ↦
      let h' = init-IsIndexed s h in
      rw (e, set_shell)
        (insert-IsIndexed cid (record x { shell = shell }) (init s).c
          (named_of_lookup cid (init s).c x h'.named e) h')
]

pub step-IsIndexed : (s : Containers) (c : Call) → IsIndexed s.c → IsIndexed (step s c).c
unfolding step set
step-IsIndexed s (sets xs) h = put_all-IsIndexed xs [] no_names
step-IsIndexed s (appends x) h = append-IsIndexed x s h
step-IsIndexed s (sets_shell cid shell) h = set_shell-IsIndexed cid shell s h

run-IsIndexed : (s : Containers) (cs : List Call) → IsIndexed s.c → IsIndexed (run s cs).c
unfolding run
run-IsIndexed s [] h = h
run-IsIndexed s (c ∷ cs) h = run-IsIndexed (step s c) cs (step-IsIndexed s c h)

-- A container that answers to the request, or the zero value.
abbrev pub Answers : Bytes → Container → Type 0
Answers cid x = (x ≡ no_container) ⊎ (has_prefix cid x.id ≡ true)

answers_of_name :
    (cid k : Bytes) (x : Container)
    → Names k x
    → has_prefix cid k ≡ true
    → has_prefix cid x.id ≡ true
answers_of_name cid k x (inl e) h = rw (← e) h
answers_of_name cid k x (inr (e, l)) h = has_prefix_of_take 12 cid x.id (rw e at h)

scan-Answers :
    (cid : Bytes) (m : Dict Container) (l : ℕ) (rc : Container)
    → AllNamed m
    → Answers cid rc
    → Answers cid (scan cid m l rc).1
unfolding scan
scan-Answers cid [] l rc a h = h
scan-Answers cid ((k, x) ∷ m) l rc a h = elim (Bool-cases (has_prefix cid k)) [
  | inl e ↦ rw (e, scan) (scan-Answers cid m (l + 1) x a.1 (inr (answers_of_name cid k x a.0 e)))
  | inr e ↦ rw (e, scan) (scan-Answers cid m l rc a.1 h)
]

find_in-Answers : (cid : Bytes) (m : Dict Container) → AllNamed m → Answers cid (find_in cid m)
unfolding find_in
find_in-Answers cid m a = elim (Option-cases (lookup cid m)) [
  | inl e ↦ rw (e, find_in) (ground (arith, scan-Answers cid m 0 no_container a (inl refl)))
  | inr (x, e) ↦
      rw (e, find_in)
        (inr (answers_of_name cid cid x (named_of_lookup cid m x a e) (has_prefix_refl cid)))
]

-- After any calls of `Set`, `Append` and `SetShell` on a new cache, `Find` returns the zero value or
-- a container whose ID begins with the requested text.
pub find-Answers : (cs : List Call) (cid : Bytes) → Answers cid (find cid (run no_containers cs))
unfolding find
find-Answers cs cid =
    find_in-Answers cid _ (init-IsIndexed _ (run-IsIndexed no_containers cs no_names)).named
