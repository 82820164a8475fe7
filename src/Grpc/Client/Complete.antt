-- ===== src/Grpc/Client/Complete.antt =====
-- container/grpc/grpc.go: which containers the merged list has.
use container_web_tty.Base.{
  Bool-cases, Option-cases, Bytes, bytes_eq, bytes_eq_iff, Dict, lookup, insert, lookup-insert, ◌≡◌,
  refl, inl, inr, Bool, true, false, ◌&&◌, ◌||◌, none, some, List, [], ◌∷◌, ◌++◌, arith,
}
use container_web_tty.Proxy.Messages.{PbContainer}
use container_web_tty.Proxy.Convert.{convert_pb_container}
use container_web_tty.Grpc.Client.{
  Remote, GrpcCli, Collected, is_marked, collect, collect_client, collect_all, list,
}
use container_web_tty.Grpc.Client.Merged.{has_id, has_id-append}

abbrev pub has_pb_id : Bytes → List PbContainer → Bool
has_pb_id id [] = false
has_pb_id id (c ∷ cs) = bytes_eq c.id id || has_pb_id id cs

-- A server that answers to the ping and to the request lists the ID.
abbrev pub lists_id : Bytes → Bytes → Remote → Bool
lists_id auth id r = r.ping auth && elim (r.list auth) [ none ↦ false | some cs ↦ has_pb_id id cs ]

abbrev pub some_lists_id : Bytes → Bytes → Dict Remote → Bool
some_lists_id auth id [] = false
some_lists_id auth id ((addr, r) ∷ rest) = lists_id auth id r || some_lists_id auth id rest

-- An ID is marked exactly if it is in the list.
abbrev Marks : Collected → Type 0
Marks acc = (id : Bytes) → is_marked id acc.ids ≡ has_id id acc.all

abbrev added : Bytes → PbContainer → Collected → Collected
added addr c acc = record {
  all = acc.all ++ convert_pb_container (record c { loc_server = addr }) ∷ [];
  ids = insert c.id true acc.ids;
}

has_id-added :
    (addr id : Bytes) (c : PbContainer) (acc : Collected)
    → has_id id (added addr c acc).all ≡ (has_id id acc.all || bytes_eq c.id id)
unfolding convert_pb_container
has_id-added addr id c acc =
    ground
      (arith, has_id-append id acc.all (convert_pb_container (record c { loc_server = addr }) ∷ []))

added-Marks :
    (addr : Bytes) (c : PbContainer) (acc : Collected) → Marks acc → Marks (added addr c acc)
added-Marks addr c acc h id =
    ground (arith, h id, lookup-insert id c.id true acc.ids, has_id-added addr id c acc)

collect_old :
    (addr : Bytes) (c : PbContainer) (cs : List PbContainer) (acc : Collected)
    → is_marked c.id acc.ids ≡ true
    → collect addr (c ∷ cs) acc ≡ collect addr cs acc
unfolding collect
collect_old addr c cs acc e = rw e

collect_new :
    (addr : Bytes) (c : PbContainer) (cs : List PbContainer) (acc : Collected)
    → is_marked c.id acc.ids ≡ false
    → collect addr (c ∷ cs) acc ≡ collect addr cs (added addr c acc)
unfolding collect
collect_new addr c cs acc e = rw e

collect-ids :
    (addr : Bytes) (cs : List PbContainer) (acc : Collected)
    → Marks acc
    → Marks (collect addr cs acc)
      × ((id : Bytes)
          → has_id id (collect addr cs acc).all ≡ (has_id id acc.all || has_pb_id id cs))
collect-ids addr [] acc h = unfold collect in (h, λ id. ground arith)
collect-ids addr (c ∷ cs) acc h = elim (Bool-cases (is_marked c.id acc.ids)) [
  | inl old ↦
      let (marks, ids) = collect-ids addr cs acc h in
      rw (collect_old addr c cs acc old)
        (marks, λ id. ground (arith, ids id, h id, h c.id, bytes_eq_iff c.id id))
  | inr new ↦
      let (marks, ids) = collect-ids addr cs (added addr c acc) (added-Marks addr c acc h) in
      rw (collect_new addr c cs acc new)
        (marks, λ id. ground (arith, ids id, has_id-added addr id c acc))
]

collect_client-ids :
    (auth addr : Bytes) (r : Remote) (acc : Collected)
    → Marks acc
    → let acc' = collect_client auth addr r acc in
      Marks acc' × ((id : Bytes) → has_id id acc'.all ≡ (has_id id acc.all || lists_id auth id r))
unfolding collect_client
collect_client-ids auth addr r acc h = elim (Bool-cases (r.ping auth)) [
  | inr dead ↦ rw dead (h, λ id. ground arith)
  | inl alive ↦ elim (Option-cases (r.list auth)) [
    | inl e ↦ rw (alive, e) (h, λ id. ground arith)
    | inr (cs, e) ↦ rw (alive, e) (collect-ids addr cs acc h)
  ]
]

collect_all-ids :
    (auth : Bytes) (clients : Dict Remote) (acc : Collected) (id : Bytes)
    → Marks acc
    → has_id id (collect_all auth clients acc).all
      ≡ (has_id id acc.all || some_lists_id auth id clients)
unfolding collect_all
collect_all-ids auth [] acc id h = ground arith
collect_all-ids auth ((addr, r) ∷ rest) acc id h =
    let (marks, ids) = collect_client-ids auth addr r acc h in
    ground (arith, ids id, collect_all-ids auth rest (collect_client auth addr r acc) id marks)

unmarked : Marks (record { all = []; ids = [] })
unfolding lookup
unmarked id = refl

-- An ID is in the merged list exactly if a server that answers to the ping and to the request lists a
-- container with it.
pub has_id-list :
    (g : GrpcCli) (id : Bytes) → has_id id (list g).1 ≡ some_lists_id g.auth id g.clients
unfolding list
has_id-list g id = collect_all-ids g.auth g.clients (record { all = []; ids = [] }) id unmarked
