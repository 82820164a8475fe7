-- ===== src/Grpc/Client/Actions.antt =====
-- container/grpc/grpc.go: what the caller of an action gets.
use container_web_tty.Base.{
  Bool-cases, Option-cases, Bytes, bytes_eq, Dict, lookup, ◌≡◌, subst, ◌≢◌, inl, inr, none, some,
  [], ◌∷◌, arith,
}
use container_web_tty.Types.Containers
use container_web_tty.Proxy.Messages.{ContainerId}
use container_web_tty.Grpc.Client.{
  restart_it, stop_it, start_it, Act, answered, Remote, GrpcCli, container_action, start, stop,
  restart,
}

-- A server whose actions never give a nil `*pb.Err` without an error, as the generated client's do
-- not: it returns a message that it has made itself.
abbrev pub NeverNil : Dict Remote → Type 0
NeverNil [] = Unit {0}
NeverNil ((a, r) ∷ rest) =
    ((action : Act) (m : ContainerId) → r.act action m ≢ answered none) × NeverNil rest

NeverNil-lookup :
    (addr : Bytes) (cs : Dict Remote) (r : Remote)
    → NeverNil cs
    → lookup addr cs ≡ some r
    → (action : Act) (m : ContainerId) → r.act action m ≢ answered none
unfolding lookup
NeverNil-lookup addr [] r n e action m = cc
NeverNil-lookup addr ((a, s) ∷ cs) r n e action m = elim (Bool-cases (bytes_eq a addr)) [
  | inl same ↦
      let e' : s ≡ r = ground arith in
      subst (λ (x : Remote). x.act action m ≢ answered none) e' (n.0 action m)
  | inr other ↦ NeverNil-lookup addr cs r n.1 (ground arith) action m
]

action_fails :
    (g : GrpcCli) (cid : Bytes) (action : Act)
    → NeverNil g.clients
    → container_action action cid g ≢ none
unfolding container_action
action_fails g cid action n =
    let info = Containers.find cid g.containers in
    elim (Option-cases (lookup info.loc_server g.clients)) [
      | inl e ↦ ground arith
      | inr (r, e) ↦
          let fails =
            NeverNil-lookup info.loc_server g.clients r n e action
              (record { id = cid; auth = g.auth }) in
          ground (arith, fails)
    ]

-- With such servers `Start`, `Stop` and `Restart` return an error for every container, also where the
-- remote action succeeded.
pub actions_always_fail :
    (g : GrpcCli) (cid : Bytes)
    → NeverNil g.clients
    → (start cid g ≢ none) × (stop cid g ≢ none) × (restart cid g ≢ none)
unfolding start stop restart
actions_always_fail g cid n =
    (action_fails g cid start_it n, action_fails g cid stop_it n, action_fails g cid restart_it n)
