-- ===== src/Types/Containers/Tests.antt =====
-- Tests of types/containers.go.
use container_web_tty.Base.{
  Bytes, str, bytes_eq, bytes_eq_iff, has_prefix, Dict, lookup, insert, ℕ, ◌≡◌, refl, sym, ◌∙◌,
  subst, ◌≢◌, true, List, [], ◌∷◌, arith,
}
use container_web_tty.Types.Containers.Order.{SameMap, find_in_same}
use container_web_tty.Types.Containers.Unique.{find-set_unique}
use container_web_tty.Types.Containers.Find.{
  step, Call, sets, appends, sets_shell, run, Answers, find-Answers,
}
use mathlib.Core.List.{Memᴰ}
use container_web_tty.Types.Containers.Abstract.{registered, registered_same, IsUnambiguous}
use container_web_tty.Types.Containers.Exact.{find-set, last_named, names}
use container_web_tty.Types.Containers.Client.{run_refines, replay}
use container_web_tty.Types.Containers.Prefix.{find-set_short}
use container_web_tty.Samples.{web, database}
use container_web_tty.Types.Containers.{
  list, Containers, put_all, put, set_shell, init, scan, append, find_by_prefix, find_in,
  no_containers, find, set,
}
use container_web_tty.Types.{Container, no_container}

abbrev calls : List Call
calls = sets (web ∷ []) ∷ appends database ∷ sets_shell database.id (str "/bin/sh") ∷ []

find-Answers_example :
    Answers (str "4c01db0b339c") (find (str "4c01db0b339c") (run no_containers calls))
find-Answers_example = find-Answers calls (str "4c01db0b339c")

-- The container itself is found.
finds_web : find (str "4c01db0b339c") (run no_containers calls) ≡ web
unfolding find find_in run step set append set_shell init put put_all insert lookup bytes_eq
finds_web = refl

run_refines_example :
    (list (run no_containers calls) ≡ web ∷ database ∷ [])
    × (find (str "4c01db0b339c") (run no_containers calls) ≡ web)
unfolding replay last_named bytes_eq
run_refines_example = run_refines calls (str "4c01db0b339c")

find-set_test : find (str "9f2e77aa01c4") (set (web ∷ database ∷ []) no_containers) ≡ database
unfolding last_named bytes_eq
find-set_test = find-set (web ∷ database ∷ []) no_containers (str "9f2e77aa01c4") database refl

find-set_short_test : find (str "4c01db0") (set (web ∷ database ∷ []) no_containers) ≡ no_container
find-set_short_test =
    find-set_short (web ∷ database ∷ []) no_containers (str "4c01db0")
      (omega arith, (omega arith, tt)) (omega arith)

find-set_prefix_test : find (str "4c01db0b339c7") (set (web ∷ database ∷ []) no_containers) ≡ web
unfolding find find_in find_by_prefix scan has_prefix set init put put_all insert lookup bytes_eq
find-set_prefix_test = refl

abbrev two_keys : Dict Container
two_keys = (str "a", web) ∷ (str "b", database) ∷ []

abbrev two_keys' : Dict Container
two_keys' = (str "b", database) ∷ (str "a", web) ∷ []

same_keys : SameMap two_keys two_keys'
unfolding lookup
same_keys k = ground (arith, bytes_eq_iff (str "a") k, bytes_eq_iff (str "b") k)

find_in_same_test : find_in (str "a") two_keys ≡ find_in (str "a") two_keys'
unfolding lookup bytes_eq
find_in_same_test =
    find_in_same (str "a") two_keys two_keys' (refl, (refl, tt)) (refl, (refl, tt)) same_keys

find-set_unique_test : find (str "4c01db0b339c7") (set (web ∷ database ∷ []) no_containers) ≡ web
unfolding has_prefix
find-set_unique_test =
    find-set_unique (web ∷ database ∷ []) no_containers (str "4c01db0b339c7") web (omega arith) refl

-- The same two containers in two orders.
abbrev a_then_b : List Container
a_then_b = record no_container { id = str "a" } ∷ record no_container { id = str "b" } ∷ []

abbrev b_then_a : List Container
b_then_a = record no_container { id = str "b" } ∷ record no_container { id = str "a" } ∷ []

-- A short ID is its only name.
short_name : (k : Bytes) (c : ℕ) → names k (record no_container { id = c ∷ [] }) ≡ true → c ∷ [] ≡ k
short_name k c e = (bytes_eq_iff (c ∷ []) k).0 (ground arith)

not_both :
    (k : Bytes) (x y : Container) (c d : ℕ)
    → x ≡ record no_container { id = c ∷ [] }
    → y ≡ record no_container { id = d ∷ [] }
    → c ≢ d
    → names k x ≡ true
    → names k y ≡ true
    → x ≡ y
not_both k x y c d e f apart h g =
    let here = short_name k c (subst (λ (z : Container). names k z ≡ true) e h) in
    let there = short_name k d (subst (λ (z : Container). names k z ≡ true) f g) in
    absurd (apart (head_eq (here ∙ sym there)))
  where
    head_eq : {a b : ℕ} → ◌≡◌ {A = Bytes} (a ∷ []) (b ∷ []) → a ≡ b
    head_eq e = cc

swap_members : (x y z : Container) → Memᴰ x (y ∷ z ∷ []) → Memᴰ x (z ∷ y ∷ [])
swap_members x y z (Memᴰ.head e) = Memᴰ.tail (Memᴰ.head e)
swap_members x y z (Memᴰ.tail (Memᴰ.head e)) = Memᴰ.head e
swap_members x y z (Memᴰ.tail (Memᴰ.tail i)) = elim i [ ]

a_then_b-IsUnambiguous : IsUnambiguous a_then_b
a_then_b-IsUnambiguous k x y (Memᴰ.head e) (Memᴰ.head f) h g = e ∙ sym f
a_then_b-IsUnambiguous k x y (Memᴰ.head e) (Memᴰ.tail (Memᴰ.head f)) h g =
    not_both k x y 97 98 e f (λ l. omega arith) h g
a_then_b-IsUnambiguous k x y (Memᴰ.head e) (Memᴰ.tail (Memᴰ.tail j)) h g = elim j [ ]
a_then_b-IsUnambiguous k x y (Memᴰ.tail (Memᴰ.head e)) (Memᴰ.head f) h g =
    not_both k x y 98 97 e f (λ l. omega arith) h g
a_then_b-IsUnambiguous k x y (Memᴰ.tail (Memᴰ.head e)) (Memᴰ.tail (Memᴰ.head f)) h g = e ∙ sym f
a_then_b-IsUnambiguous k x y (Memᴰ.tail (Memᴰ.head e)) (Memᴰ.tail (Memᴰ.tail j)) h g = elim j [ ]
a_then_b-IsUnambiguous k x y (Memᴰ.tail (Memᴰ.tail i)) j h g = elim i [ ]

registered_same_example :
    (registered a_then_b ≡ registered b_then_a)
    × ((cid : Bytes) (s : Containers) → find cid (set a_then_b s) ≡ find cid (set b_then_a s))
registered_same_example =
    registered_same a_then_b b_then_a a_then_b-IsUnambiguous
      (λ x. (swap_members x _ _, swap_members x _ _))
