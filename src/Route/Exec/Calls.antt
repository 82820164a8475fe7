-- ===== src/Route/Exec/Calls.antt =====
-- route/exec.go: for which requests the backend's `Exec` is called, and what `processTTY` ends.
use container_web_tty.Base.{
  leb, if◌then◌else◌, length, is_empty, Bytes, ℕ, ◌+◌, ◌≡◌, ◌⊎◌, inl, inr, true, false, ◌||◌,
  Option, none, some, List, [], ◌∷◌, arith,
}
use container_web_tty.Types.{Container, InitMessage}
use container_web_tty.Backend.{Cli, opened, refused}
use container_web_tty.Route.Init.{Message, arguments, denied, Query, read_init_message, parse_query}
use container_web_tty.Route.Server.{Server}
use container_web_tty.Route.Title.{make_title_buff_lem}
use container_web_tty.Route.Exec.{
  exceeds, exceeds, exec_options, trim_space, process_tty, Started, panics, fails, running,
}
use container_web_tty.Route.Exec.Handler.{Request}

module _ (cli : Cli) where
  -- The terminals that the backend opens by a call of `Exec`, if there is one.
  unfoldable pub opened_by : Option Container → cli.State → List ℕ
  opened_by none st = []
  opened_by (some c) st = elim ((cli.exec c st).1) [ opened handle ↦ handle ∷ [] | refused e ↦ [] ]

  unfoldable pub state_after : Option Container → cli.State → cli.State
  state_after none st = st
  state_after (some c) st = (cli.exec c st).0

-- What `processTTY` ends by `Exit`.
abbrev pub exits_of : Started → List ℕ
exits_of (panics exits) = exits
exits_of (fails e exits) = exits
exits_of (running handle title) = handle ∷ []

module _ (unmarshal : Bytes → Option InitMessage) (parse_url : Bytes → Option Query) where
  -- The container with which the backend's `Exec` is called for a first message, if it is.
  unfoldable pub exec_of_message : Bytes → Container → Message → Option Container
  exec_of_message credential c m = elim (read_init_message unmarshal credential m) [
    | denied e ↦ none
    | arguments args ↦ elim (parse_query parse_url (trim_space args)) [
      | inr e ↦ none
      | inl q ↦ if leb 7 (length c.id) then some (record c { exec = exec_options q }) else none
    ]
  ]

  -- The same for a request: a shell, a free place, an upgrade and a first message are needed.
  unfoldable pub exec_call : Request → Server → Option Container
  unfolding exec_of_message
  exec_call r s = elim (r.upgrade) [
    | inl e ↦ none
    | inr m ↦
        let c = exec_of_message ((s.options).credential) (r.container) m in
        if is_empty ((r.container).shell)
          || exceeds ((s.options).max_connection) ((s.counter).connections + 1)
        then none
        else c
  ]

  pub exec_call-shut :
      (r : Request) (s : Server)
      → (is_empty ((r.container).shell)
          || exceeds ((s.options).max_connection) ((s.counter).connections + 1))
        ≡ true
      → exec_call r s ≡ none
  unfolding exec_call
  exec_call-shut r s e = ground arith

  pub exec_call-open :
      (r : Request) (s : Server)
      → (is_empty ((r.container).shell)
          || exceeds ((s.options).max_connection) ((s.counter).connections + 1))
        ≡ false
      → exec_call r s ≡ elim (r.upgrade) [
        | inl e ↦ none
        | inr m ↦ exec_of_message ((s.options).credential) (r.container) m
      ]
  unfolding exec_call
  exec_call-open r s e = ground arith

  module _ (cli : Cli) where
    pub process_tty-exits :
        (m : Message) (exec_id : Bytes) (c : Container) (new_master : ℕ ⊎ Bytes) (s : Server)
        (st : cli.State)
        → let (s', st', started) =
            process_tty unmarshal parse_url cli m exec_id c new_master s st in
          let call = exec_of_message ((s.options).credential) c m in
          (exits_of started ≡ opened_by cli call st) × (st' ≡ state_after cli call st)
    unfolding process_tty exec_of_message opened_by state_after
    process_tty-exits m exec_id c new_master s st = ground (arith, make_title_buff_lem c none)

    pub process_tty-server :
        (m : Message) (exec_id : Bytes) (c : Container) (new_master : ℕ ⊎ Bytes) (s : Server)
        (st : cli.State)
        → let (s', st', started) =
            process_tty unmarshal parse_url cli m exec_id c new_master s st in
          (s'.counter ≡ s.counter) × (elim started [ running handle title ↦ s | _ ↦ s' ] ≡ s)
    unfolding process_tty
    process_tty-server m exec_id c new_master s st = ground arith
