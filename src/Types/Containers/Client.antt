-- ===== src/Types/Containers/Client.antt =====
-- types/containers.go: what the callers of the cache can observe, over any sequence of calls.
use container_web_tty.Base.{
  if◌then◌else◌, Bool-cases, Option-cases, is_empty, Bytes, bytes_eq, bytes_eq_iff, Dict, lookup,
  lookup-insert, ◌≡◌, refl, ap, ◌∙◌, inl, inr, true, false, Option, none, some, List, [], ◌∷◌, ◌++◌,
  arith,
}
use container_web_tty.Types.{Container}
use container_web_tty.Types.Containers.{
  no_containers, find, find_by_prefix, find_in, set_shell, set, init, list, append, Containers,
}
use container_web_tty.Types.Containers.Find.{step, run, Call, sets, appends, sets_shell}
use container_web_tty.Types.Containers.Exact.{names, last_named, lookup-put, lookup-put_all}

-- The cache as a function from texts, and a list.
pub record View : Type 0 where
  pub entry : Bytes → Option Container
  pub listed : List Container

abbrev pub empty_view : View
empty_view = record { entry = λ k. none; listed = [] }

-- The same calls on such a view: `Set` takes the place of all, `Append` adds a container under its
-- names, and `SetShell` changes the one entry that it is called for.
unfoldable pub replay : List Call → View → View
replay [] v = v
replay (sets xs ∷ calls) v = replay calls (record { entry = λ k. last_named k xs; listed = xs })
replay (appends x ∷ calls) v = replay calls (
    if is_empty x.id then v else record {
      entry = λ k. if names k x then some x else v.entry k;
      listed = v.listed ++ x ∷ [];
    })
replay (sets_shell cid shell ∷ calls) v = replay calls (record v {
  entry = λ k.
      if bytes_eq cid k
      then elim (v.entry cid) [ some x ↦ some (record x { shell = shell }) | none ↦ none ]
      else v.entry k;
})

-- The cache reads as the view.
pub record Reads (s : Containers) (v : View) : Type 0 where
  pub entries : (k : Bytes) → lookup k (init s).c ≡ v.entry k
  pub lists : list s ≡ v.listed

once-init : (s : Containers) → (init s).once ≡ true
unfolding init
once-init s = ground arith

init_of_once : (s : Containers) → s.once ≡ true → init s ≡ s
unfolding init
init_of_once s h = rw h refl

step-Reads-sets :
    (xs : List Container) (s : Containers)
    → Reads (set xs s) (record { entry = λ k. last_named k xs; listed = xs })
unfolding set list lookup
step-Reads-sets xs s =
    let settled = init_of_once (set xs s) (once-init s) in
    record {
      entries = λ k. ap (λ z. lookup k z.c) settled ∙ ground (arith, lookup-put_all k xs []);
      lists = ap (λ z. z.cs) settled;
    }

once-append : (x : Container) (s : Containers) → (append x s).once ≡ true
unfolding append
once-append x s = ground (arith, once-init s)

once-set_shell : (cid shell : Bytes) (s : Containers) → (set_shell cid shell s).once ≡ true
unfolding set_shell
once-set_shell cid shell s = ground (arith, once-init s)

step-Reads-appends :
    (x : Container) (s : Containers) (v : View)
    → Reads s v
    → is_empty x.id ≡ false
    → Reads (append x s) (record {
      entry = λ k. if names k x then some x else v.entry k;
      listed = v.listed ++ x ∷ [];
    })
unfolding append list
step-Reads-appends x s v h e =
    let settled = init_of_once (append x s) (once-append x s) in
    record {
      entries = λ k.
          ap (λ z. lookup k z.c) settled
          ∙ rw e (ground (arith, lookup-put k x (init s).c, h.entries k));
      lists = ap (λ z. z.cs) settled ∙ rw e (ap (λ z. z ++ x ∷ []) h.lists);
    }

lookup-set_shell :
    (cid shell : Bytes) (s : Containers) (k : Bytes)
    → lookup k (set_shell cid shell s).c ≡ (
        if bytes_eq cid k
        then elim (lookup cid (init s).c) [
          | some x ↦ some (record x { shell = shell })
          | none ↦ none
        ]
        else lookup k (init s).c)
unfolding set_shell
lookup-set_shell cid shell s k = elim (Option-cases (lookup cid (init s).c)) [
  | inl e ↦ rw (e, set_shell) (ground (arith, bytes_eq_iff cid k))
  | inr (x, e) ↦
      rw (e, set_shell)
        (ground (arith, lookup-insert k cid (record x { shell = shell }) (init s).c))
]

cs-set_shell : (cid shell : Bytes) (s : Containers) → (set_shell cid shell s).cs ≡ (init s).cs
unfolding set_shell
cs-set_shell cid shell s = ground arith

step-Reads-sets_shell :
    (cid shell : Bytes) (s : Containers) (v : View)
    → Reads s v
    → Reads (set_shell cid shell s) (record v {
      entry = λ k.
          if bytes_eq cid k
          then elim (v.entry cid) [ some x ↦ some (record x { shell = shell }) | none ↦ none ]
          else v.entry k;
    })
unfolding set_shell list
step-Reads-sets_shell cid shell s v h =
    let settled = init_of_once (set_shell cid shell s) (once-set_shell cid shell s) in
    record {
      entries = λ k.
          ap (λ z. lookup k z.c) settled
          ∙ rw (← h.entries cid, ← h.entries k) (lookup-set_shell cid shell s k);
      lists = ap (λ z. z.cs) settled ∙ cs-set_shell cid shell s ∙ h.lists;
    }

step-Reads-no_name :
    (x : Container) (s : Containers) (v : View)
    → Reads s v
    → is_empty x.id ≡ true
    → Reads (append x s) v
unfolding append list
step-Reads-no_name x s v h e =
    let settled = init_of_once (append x s) (once-append x s) in
    record {
      entries = λ k. ap (λ z. lookup k z.c) settled ∙ rw e (h.entries k);
      lists = ap (λ z. z.cs) settled ∙ rw e h.lists;
    }

run-Reads :
    (calls : List Call) (s : Containers) (v : View)
    → Reads s v
    → Reads (run s calls) (replay calls v)
unfolding run replay step
run-Reads [] s v h = h
run-Reads (sets xs ∷ calls) s v h = run-Reads calls (set xs s) _ (step-Reads-sets xs s)
run-Reads (appends x ∷ calls) s v h = elim (Bool-cases (is_empty x.id)) [
  | inl e ↦ rw e (run-Reads calls (append x s) v (step-Reads-no_name x s v h e))
  | inr e ↦ rw e (run-Reads calls (append x s) _ (step-Reads-appends x s v h e))
]
run-Reads (sets_shell cid shell ∷ calls) s v h =
    run-Reads calls (set_shell cid shell s) _ (step-Reads-sets_shell cid shell s v h)

no_containers-Reads : Reads no_containers empty_view
unfolding init list lookup
no_containers-Reads = record { entries = λ k. refl; lists = refl }

find_in-entry :
    (cid : Bytes) (m : Dict Container) (o : Option Container)
    → lookup cid m ≡ o
    → find_in cid m ≡ elim o [ some x ↦ x | none ↦ find_by_prefix cid m ]
unfolding find_in
find_in-entry cid m o e = rw (← e) refl

-- After any calls of Set, Append and SetShell on a new cache, List returns the containers that the
-- calls left in the view, and Find returns the view's entry for the text; for a text without an
-- entry it falls back on the search by prefix.
pub run_refines :
    (calls : List Call) (cid : Bytes)
    → (list (run no_containers calls) ≡ (replay calls empty_view).listed)
      × (find cid (run no_containers calls) ≡ elim ((replay calls empty_view).entry cid) [
        | some x ↦ x
        | none ↦ find_by_prefix cid (init (run no_containers calls)).c
      ])
unfolding find
run_refines calls cid =
    let h = run-Reads calls no_containers empty_view no_containers-Reads in
    (h.lists, find_in-entry cid (init (run no_containers calls)).c _ (h.entries cid))
