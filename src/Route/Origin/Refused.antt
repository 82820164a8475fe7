-- ===== src/Route/Origin/Refused.antt =====
-- route/route.go and route/exec.go: a websocket that is opened by the page of another site.
use container_web_tty.Base.{
  is_empty, Bytes, ℕ, ◌≡◌, refl, ◌∙◌, ◌⊎◌, inl, inr, Bool, false, Option, none, some, List, [],
}
use container_web_tty.Config.{ServerConfig}
use container_web_tty.Types.{Container, InitMessage}
use container_web_tty.Backend.{Cli}
use container_web_tty.Route.Init.{Message, Query}
use container_web_tty.Route.Server.{Server, new}
use container_web_tty.Route.Exec.Handler.{Request}
use container_web_tty.Route.Exec.{Dispatch, handle_exec, not_found, shares, serves, process_share}
use container_web_tty.Route.Exec.Join.{serve_share}
use container_web_tty.Route.Exec.Whole.{
  Served, bad_request, joined, handled, serve_exec, share_info, visit,
}
use container_web_tty.Route.Exec.Calls.{exec_call, opened_by, state_after}
use container_web_tty.Route.Exec.Releases.{handle_ws-Releases}
use container_web_tty.Route.Origin.{Upgrader, upgrader, new_server}

-- A request without an upgrade calls nothing.
no_call :
    (unmarshal : Bytes → Option InitMessage) (parse_url : Bytes → Option Query) (cli : Cli)
    (r : Request) (s : Server) (st : cli.State) (result : Bytes ⊎ Message) (e : Bytes)
    → result ≡ inl e
    → let call = exec_call unmarshal parse_url (record r { upgrade = result }) s in
      (state_after cli call st ≡ st) × (opened_by cli call st ≡ [])
unfolding exec_call state_after opened_by
no_call unmarshal parse_url cli r s st result e h = rw h (refl, refl)

-- What the handler leaves of the server, the terminals that it ended, and the view that it showed.
abbrev pub server_of : {State : Type 0} → Server → Served State → Server
server_of s (bad_request st) = s
server_of s (joined st j) = s
server_of s (handled h) = h.server

abbrev pub state_of : {State : Type 0} → Served State → State
state_of (bad_request st) = st
state_of (joined st j) = st
state_of (handled h) = h.state

abbrev pub exits_of : {State : Type 0} → Served State → List ℕ
exits_of (bad_request st) = []
exits_of (joined st j) = []
exits_of (handled h) = h.exits

abbrev pub view_of : {State : Type 0} → Served State → Option (Bytes × Bool)
view_of (bad_request st) = none
view_of (joined st j) = j.view
view_of (handled h) = none

-- The backend after the `GetInfo` of an exec ID without a master, which comes before the upgrade.
abbrev pub asked_first : (cli : Cli) → Bytes → Server → cli.State → cli.State
asked_first cli exec_id s st = elim (handle_exec exec_id s) [
  | not_found ↦ st
  | shares master ↦ st
  | serves cid ↦ (cli.get_info cid st).0
]

dispatch_cases :
    (d : Dispatch)
    → (d ≡ not_found) ⊎ ((m : ℕ) × (d ≡ shares m)) ⊎ ((cid : Bytes) × (d ≡ serves cid))
dispatch_cases not_found = inl refl
dispatch_cases (shares m) = inr (inl (m, refl))
dispatch_cases (serves cid) = inr (inr (cid, refl))

module _ (unmarshal : Bytes → Option InitMessage) (parse_url : Bytes → Option Query) (cli : Cli)
    (others : Server → Server) (outputs : ℕ → Bytes) (id : ℕ) where
  -- Without an upgrade nothing is shown to whoever would join.
  unshared :
      (r : Request) (s : Server) (st : cli.State) (e : Bytes) (m : ℕ) (info : Bytes → Container)
      → r.upgrade ≡ inl e
      → (share_info unmarshal parse_url cli others outputs id (visit r) s st ≡ st)
        × ((serve_share unmarshal info outputs id (visit r) m s).view ≡ none)
  unfolding share_info visit serve_share process_share
  unshared r s st e m info h = rw (h, visit, serve_share, process_share) (refl, refl)

  -- What a request leaves that is not upgraded.
  unopened :
      (r : Request) (s : Server) (st : cli.State) (e : Bytes)
      → r.upgrade ≡ inl e
      → ((t : Server) → (others t).counter ≡ t.counter)
      → let o = serve_exec unmarshal parse_url cli others outputs id r s st in
        (state_of o ≡ asked_first cli r.exec_id s st)
        × (exits_of o ≡ [])
        × (view_of o ≡ none)
        × ((server_of s o).counter.connections ≡ (s.counter).connections)
  unfolding serve_exec
  unopened r s st e h kept = elim (dispatch_cases (handle_exec r.exec_id s)) [
    | inl d ↦ rw (d, serve_exec, asked_first) (refl, refl, refl, refl)
    | inr (inl (m, d)) ↦
        let (same, shut) = unshared r s st e m (λ cid. (cli.get_info cid st).1) h in
        rw (d, serve_exec, asked_first) (same, refl, shut, refl)
    | inr (inr (cid, d)) ↦
        let (st', c) = cli.get_info cid st in
        let r' : Request = record r { container = c } in
        let left = handle_ws-Releases unmarshal parse_url cli others r' s st' kept in
        let uncalled = no_call unmarshal parse_url cli r' s st' r.upgrade e h in
        rw (d, serve_exec, asked_first)
          (left.state ∙ uncalled.0, left.exits ∙ uncalled.1, refl, left.connections)
  ]

-- With an expression for the origin, an upgrade that refuses what the check refuses, as the library
-- documents it, and an origin that the expression does not match: New gives a server and its
-- upgrader, and whatever request for an exec comes with this origin, to an unknown exec ID, to one
-- with a master or to one without, no terminal is opened or ended and none is shown, and the
-- counter is as before. The backend is left as it was, except that the GetInfo of an exec ID
-- without a master comes before the upgrade.
pub other_origin_refused :
    (compile : Bytes → Option (Bytes → Bool)) (options : ServerConfig) (matches : Bytes → Bool)
    (upgrade : Option (Bytes → Bool) → Bytes → Bytes ⊎ Message) (origin : Bytes)
    (unmarshal : Bytes → Option InitMessage) (parse_url : Bytes → Option Query) (cli : Cli)
    (others : Server → Server) (outputs : ℕ → Bytes) (id : ℕ) (r : Request) (s : Server)
    (st : cli.State)
    → is_empty options.ws_origin ≡ false
    → compile options.ws_origin ≡ some matches
    → ((check : Bytes → Bool)
        → check origin ≡ false
        → (e : Bytes) × (upgrade (some check) origin ≡ inl e))
    → matches origin ≡ false
    → ((t : Server) → (others t).counter ≡ t.counter)
    → (u : Upgrader) × (new_server compile options ≡ inl (new options, u))
      × (let o =
            serve_exec unmarshal parse_url cli others outputs id
              (record r { upgrade = upgrade u.check_origin origin })
              s
              st in
          (state_of o ≡ asked_first cli r.exec_id s st)
          × (exits_of o ≡ [])
          × (view_of o ≡ none)
          × ((server_of s o).counter.connections ≡ (s.counter).connections))
unfolding new_server
other_origin_refused compile options matches upgrade origin unmarshal parse_url cli others outputs
      id r s st set compiled refuses differs kept =
    let (e, stopped) = refuses matches differs in
    let r' = record r { upgrade = upgrade (some matches) origin } in
    (
      upgrader (some matches),
      rw (set, compiled, new_server) refl,
      unopened unmarshal parse_url cli others outputs id r' s st e stopped kept,
    )
