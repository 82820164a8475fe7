-- ===== src/Route/Exec/Handler.antt =====
-- route/exec.go: the handler that `generateHandleWS` makes, from the admission to the deferred calls,
-- with the whole of `processTTY`.
use container_web_tty.Base.{
  if◌then◌else◌, Bytes, str, ℕ, ◌⊎◌, inl, inr, Bool, true, false, Option, none, some, List, [], ◌∷◌,
  ◌++◌,
}
use container_web_tty.Types.{Container, InitMessage}
use container_web_tty.Backend.{Cli}
use container_web_tty.Audit.{LogOpts}
use container_web_tty.Config.{ServerConfig}
use container_web_tty.Route.Counter.{done}
use container_web_tty.Route.Init.{Message, Query}
use container_web_tty.Route.Server.{Server}
use container_web_tty.Route.Exec.{
  admit, no_shell, too_many, admitted, process_tty, end_tty, close_reason, RunError, other, Started,
  panics, fails, running,
}

-- A request with what the libraries give it: the upgrade's error or the first message, what
-- `NewMasterTTY` and `webtty.New` return, the error of `Run`, and the errors of the request's
-- context and of the terminal's at the end.
pub record Request : Type 0 where
  pub exec_id : Bytes
  pub container : Container
  pub remote_addr : Bytes
  pub upgrade : Bytes ⊎ Message
  pub new_master : ℕ ⊎ Bytes
  pub webtty_error : Option Bytes
  pub run_error : Option RunError
  pub ctx_err : Option RunError
  pub cctx_err : Option RunError

-- What the handler leaves: the terminals that it ended by `Exit`, whether a master was entered, the
-- audit that it started, the reason that it logs, and whether it panics.
pub record Handled (State : Type 0) : Type 0 where
  pub server : Server
  pub state : State
  pub exits : List ℕ
  pub entered : Bool
  pub audit : Option LogOpts
  pub reason : Option Bytes
  pub crashed : Bool

abbrev pub unknown_reason : Bytes
unknown_reason = str "unknown reason"

-- A request that got no terminal.
abbrev pub without_terminal : {State : Type 0} → Server → State → Option Bytes → Handled State
without_terminal s st reason = record {
  server = s;
  state = st;
  exits = [];
  entered = false;
  audit = none;
  reason = reason;
  crashed = false;
}

-- The deferred `counter.done()`.
unfoldable pub leave : {State : Type 0} → Handled State → Handled State
leave h = elim (done ((h.server).counter)) [
  | some (counter', num) ↦ record h { server = record (h.server) { counter = counter' } }
  | none ↦ record h { crashed = true }
]

-- The fork that the audit log reads.
unfoldable pub start_audit : ServerConfig → Container → Bytes → Option LogOpts
start_audit options c remote_addr =
    if options.enable_audit
    then some (record { dir = options.audit_log_dir; container_id = c.id; client_ip = remote_addr })
    else none

-- The end of `processTTY` once its master is entered.
abbrev run_end : Request → Option RunError
run_end r = elim (r.webtty_error) [
  | some e ↦ some (other (str "failed to create webtty: " ++ e))
  | none ↦ r.run_error
]

-- `others` is what the other requests do to the server while the terminal runs.
module _ (unmarshal : Bytes → Option InitMessage) (parse_url : Bytes → Option Query) (cli : Cli)
    (others : Server → Server) where
  -- What is left when `processTTY` has returned or panicked, before the deferred `counter.done()`.
  unfoldable pub finish : Request → Server → cli.State → Started → Handled cli.State
  unfolding start_audit
  finish r s st (panics exits) = record (without_terminal s st (some unknown_reason)) {
    exits = exits;
    crashed = true;
  }
  finish r s st (fails e exits) =
      record (without_terminal s st (some (close_reason (some (other e)) r.ctx_err r.cctx_err))) {
        exits = exits;
      }
  finish r s st (running handle title) = record {
    server = end_tty r.exec_id (others s);
    state = st;
    exits = handle ∷ [];
    entered = true;
    audit = start_audit s.options r.container r.remote_addr;
    reason = some (close_reason (run_end r) r.ctx_err r.cctx_err);
    crashed = false;
  }

  -- The handler behind the admission.
  unfoldable pub serve : Request → Server → cli.State → Handled cli.State
  unfolding finish process_tty
  serve r s st = elim (r.upgrade) [
    | inl e ↦ without_terminal s st (some e)
    | inr m ↦
        let (s', st', started) =
          process_tty unmarshal parse_url cli m r.exec_id r.container r.new_master s st in
        finish r s' st' started
  ]

  unfoldable pub handle_ws : Request → Server → cli.State → Handled cli.State
  unfolding serve leave
  handle_ws r s st = elim (admit ((s.options).max_connection) (r.container) (s.counter)) [
    | no_shell ↦ without_terminal s st none
    | too_many counter' ↦ leave (
        without_terminal (record s { counter = counter' }) st
          (some (str "exceeding max number of connections")))
    | admitted counter' ↦ leave (serve r (record s { counter = counter' }) st)
  ]
