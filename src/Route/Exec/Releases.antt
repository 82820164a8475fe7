-- ===== src/Route/Exec/Releases.antt =====
-- route/exec.go: what a request to the exec handler leaves, however it ends.
use container_web_tty.Base.{
  if◌then◌else◌, Bool-cases, Sum-cases, is_empty, Bytes, str, bytes_eq_refl, lookup, lookup-erase,
  ◌+◌, ◌≡◌, refl, ◌∙◌, inl, inr, true, false, Option, none, some, arith,
}
use container_web_tty.Types.{Container, InitMessage}
use container_web_tty.Backend.{Cli}
use container_web_tty.Route.Init.{Query}
use container_web_tty.Route.Server.{Server}
use container_web_tty.Route.Exec.{
  exceeds, admit, add, end_tty, exceeds, process_tty, Started, panics, fails, running,
}
use container_web_tty.Route.Counter.{done, add, Counter}
use container_web_tty.Route.Exec.Handler.{
  without_terminal, handle_ws, leave, serve, finish, Handled, Request,
}
use container_web_tty.Route.Exec.Calls.{
  exits_of, opened_by, state_after, exec_of_message, exec_call, exec_call-shut, exec_call-open,
  process_tty-exits, process_tty-server,
}

module _ (unmarshal : Bytes → Option InitMessage) (parse_url : Bytes → Option Query) (cli : Cli)
    (others : Server → Server) where
  -- What holds of the server, the backend and the terminals after a request.
  pub record Releases (r : Request) (s : Server) (st : cli.State) (h : Handled cli.State)
      : Type 0 where
    pub waits : (h.server).counter.wg ≡ (s.counter).wg
    pub connections : (h.server).counter.connections ≡ (s.counter).connections
    pub exits : h.exits ≡ opened_by cli (exec_call unmarshal parse_url r s) st
    pub state : h.state ≡ state_after cli (exec_call unmarshal parse_url r s) st
    pub masters :
        lookup r.exec_id (h.server).masters
        ≡ (if h.entered then none else lookup r.exec_id s.masters)
    pub execs :
        lookup r.exec_id (h.server).execs ≡ (if h.entered then none else lookup r.exec_id s.execs)

  -- The same before the deferred `counter.done()`, which the counter still waits for.
  record Ends (r : Request) (s : Server) (st : cli.State) (call : Option Container)
      (h : Handled cli.State) : Type 0 where
    counter : (h.server).counter ≡ s.counter
    exits : h.exits ≡ opened_by cli call st
    state : h.state ≡ state_after cli call st
    masters :
        lookup r.exec_id (h.server).masters
        ≡ (if h.entered then none else lookup r.exec_id s.masters)
    execs :
        lookup r.exec_id (h.server).execs ≡ (if h.entered then none else lookup r.exec_id s.execs)

  finish-Ends :
      (r : Request) (s s' : Server) (st st' : cli.State) (call : Option Container)
      (started : Started)
      → ((t : Server) → (others t).counter ≡ t.counter)
      → (exits_of started ≡ opened_by cli call st) × (st' ≡ state_after cli call st)
      → (s'.counter ≡ s.counter) × (elim started [ running handle title ↦ s | _ ↦ s' ] ≡ s)
      → Ends r s st call (finish unmarshal parse_url cli others r s' st' started)
  unfolding finish end_tty
  finish-Ends r s s' st st' call (panics exits) k e h = record {
    counter = h.0;
    exits = e.0;
    state = e.1;
    masters = rw h.1;
    execs = rw h.1;
  }
  finish-Ends r s s' st st' call (fails x exits) k e h = record {
    counter = h.0;
    exits = e.0;
    state = e.1;
    masters = rw h.1;
    execs = rw h.1;
  }
  finish-Ends r s s' st st' call (running handle title) k e h = record {
    counter = k s' ∙ h.0;
    exits = e.0;
    state = e.1;
    masters =
        ground
          (arith, lookup-erase r.exec_id r.exec_id (others s').masters, bytes_eq_refl r.exec_id);
    execs =
        ground (arith, lookup-erase r.exec_id r.exec_id (others s').execs, bytes_eq_refl r.exec_id);
  }

  serve-Ends :
      (r : Request) (s : Server) (st : cli.State)
      → ((t : Server) → (others t).counter ≡ t.counter)
      → Ends r s st
          (elim (r.upgrade) [
            | inl e ↦ none
            | inr m ↦ exec_of_message unmarshal parse_url ((s.options).credential) (r.container) m
          ])
          (serve unmarshal parse_url cli others r s st)
  unfolding serve opened_by state_after
  serve-Ends r s st k = elim (Sum-cases (r.upgrade)) [
    | inl (e, failed) ↦
        rw failed
          (record { counter = refl; exits = refl; state = refl; masters = refl; execs = refl })
    | inr (m, done) ↦
        let (s', st', started) =
          process_tty unmarshal parse_url cli m r.exec_id r.container r.new_master s st in
        rw done (
          finish-Ends (record r { upgrade = inr m }) s s' st st'
            (exec_of_message unmarshal parse_url ((s.options).credential) (r.container) m) started k
            (process_tty-exits unmarshal parse_url cli m r.exec_id r.container r.new_master s st)
            (process_tty-server unmarshal parse_url cli m r.exec_id r.container r.new_master s st))
  ]

  leave-add :
      (h : Handled cli.State) (c : Counter)
      → (h.server).counter ≡ (add 1 c).0
      → ((leave h).server.counter.wg ≡ c.wg)
        × ((leave h).server.counter.connections ≡ c.connections)
        × ((leave h).server.masters ≡ (h.server).masters)
        × ((leave h).server.execs ≡ (h.server).execs)
        × ((leave h).exits ≡ h.exits)
        × ((leave h).state ≡ h.state)
        × ((leave h).entered ≡ h.entered)
  unfolding leave done add
  leave-add h c e = ground arith

  leave-Releases :
      (r : Request) (s : Server) (st : cli.State) (h : Handled cli.State)
      → Ends r
          (record s { counter = (add 1 (s.counter)).0 })
          st
          (exec_call unmarshal parse_url r s)
          h
      → Releases r s st (leave h)
  leave-Releases r s st h ends =
      let (w, n, m, x, exits, state, entered) = leave-add h s.counter ends.counter in
      record {
        waits = w;
        connections = n;
        exits = exits ∙ ends.exits;
        state = state ∙ ends.state;
        masters = rw (m, entered, ends.masters) refl;
        execs = rw (x, entered, ends.execs) refl;
      }

  handle_ws-no_shell :
      (r : Request) (s : Server) (st : cli.State)
      → is_empty ((r.container).shell) ≡ true
      → handle_ws unmarshal parse_url cli others r s st ≡ without_terminal s st none
  unfolding handle_ws admit
  handle_ws-no_shell r s st e = ground arith

  handle_ws-full :
      (r : Request) (s : Server) (st : cli.State)
      → is_empty ((r.container).shell) ≡ false
      → exceeds ((s.options).max_connection) ((s.counter).connections + 1) ≡ true
      → handle_ws unmarshal parse_url cli others r s st
        ≡ leave (
            without_terminal
              (record s { counter = (add 1 (s.counter)).0 })
              st
              (some (str "exceeding max number of connections")))
  unfolding handle_ws admit add
  handle_ws-full r s st e f = ground arith

  handle_ws-free :
      (r : Request) (s : Server) (st : cli.State)
      → is_empty ((r.container).shell) ≡ false
      → exceeds ((s.options).max_connection) ((s.counter).connections + 1) ≡ false
      → handle_ws unmarshal parse_url cli others r s st
        ≡ leave (
            serve unmarshal parse_url cli others r
              (record s { counter = (add 1 (s.counter)).0 })
              st)
  unfolding handle_ws admit add
  handle_ws-free r s st e f = ground arith

  -- However a request to the exec handler ends, where the other requests leave the counter as
  -- it was while the terminal runs: the counter and its wait group are as before the request,
  -- Exit was called exactly on the terminal that the backend's Exec opened, if it was called,
  -- which takes a shell, a free place, an upgrade, the credential, an ID of seven bytes and a
  -- query that parses, and the backend's state is that after this call. If a master was
  -- entered, the exec ID has neither a master nor a container left, and otherwise it has those
  -- of before.
  pub handle_ws-Releases :
      (r : Request) (s : Server) (st : cli.State)
      → ((t : Server) → (others t).counter ≡ t.counter)
      → Releases r s st (handle_ws unmarshal parse_url cli others r s st)
  unfolding opened_by state_after
  handle_ws-Releases r s st k = elim (Bool-cases (is_empty ((r.container).shell))) [
    | inl no_shell ↦
        let shut = exec_call-shut unmarshal parse_url r s (ground arith) in
        rw (handle_ws-no_shell r s st no_shell) (record {
          waits = refl;
          connections = refl;
          exits = rw shut refl;
          state = rw shut refl;
          masters = refl;
          execs = refl;
        })
    | inr shell ↦
        elim (Bool-cases (exceeds ((s.options).max_connection) ((s.counter).connections + 1))) [
          | inl full ↦ rw (handle_ws-full r s st shell full) (
              leave-Releases r s st _ (
                rw (exec_call-shut unmarshal parse_url r s (ground arith)) (record {
                  counter = refl;
                  exits = refl;
                  state = refl;
                  masters = refl;
                  execs = refl;
                })))
          | inr free ↦ rw (handle_ws-free r s st shell free) (
              leave-Releases r s st _ (
                rw (exec_call-open unmarshal parse_url r s (ground arith))
                  (serve-Ends r (record s { counter = (add 1 (s.counter)).0 }) st k)))
        ]
  ]
