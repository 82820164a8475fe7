-- ===== src/Route/Logs/Handler.antt =====
-- route/log.go: the whole of `handleLogs`, with its deferred calls.
use container_web_tty.Base.{
  Bytes, str, ℕ, Bool, true, false, Option, none, some, List, [], ◌∷◌, ◌++◌,
}
use container_web_tty.Types.{InitMessage}
use container_web_tty.Backend.{Cli}
use container_web_tty.Route.Init.{Message, Query}
use container_web_tty.Route.Exec.{RunError, slave_closed, master_closed}
use container_web_tty.Route.Logs.{Logs, fails, panics, reading, handle_logs}

-- A request with what the libraries give it: the error of `Upgrade`, the first message, and the
-- errors of `webtty.New` and of `Run`.
pub record Request : Type 0 where
  pub cid : Bytes
  pub upgraded : Option Bytes
  pub message : Message
  pub webtty_error : Option Bytes
  pub run_error : Option RunError

-- What the handler leaves: the answer that it writes in place of a view, the readers that it
-- closed, whether a view was shown and how, the error that it logs, and whether it panicked.
pub record Handled (State : Type 0) : Type 0 where
  pub state : State
  pub answer : Option Bytes
  pub closes : List ℕ
  pub view : Option (ℕ × Bytes)
  pub logged : Option RunError
  pub crashed : Bool

-- The error of `Run` that is not the end of one of the two sides.
unfoldable pub unexpected : Option RunError → Option RunError
unexpected (some slave_closed) = none
unexpected (some master_closed) = none
unexpected e = e

-- The rest of the handler behind `Logs` of the backend.
unfoldable pub finish : {State : Type 0} → Request → State → Logs → Handled State
unfolding unexpected
finish r st (fails e) = record {
  state = st;
  answer = some e;
  closes = [];
  view = none;
  logged = none;
  crashed = false;
}
finish r st (panics handle) = record {
  state = st;
  answer = none;
  closes = handle ∷ [];
  view = none;
  logged = none;
  crashed = true;
}
finish r st (reading handle title) = elim (r.webtty_error) [
  | some e ↦ record {
    state = st;
    answer = some (str "failed to create webtty: " ++ e);
    closes = handle ∷ [];
    view = none;
    logged = none;
    crashed = false;
  }
  | none ↦ record {
    state = st;
    answer = none;
    closes = handle ∷ [];
    view = some (handle, title);
    logged = unexpected (r.run_error);
    crashed = false;
  }
]

module _ (unmarshal : Bytes → Option InitMessage) (parse_url : Bytes → Option Query)
    (cli : Cli) where
  unfoldable pub serve_logs : Request → Bytes → cli.State → Handled cli.State
  unfolding handle_logs finish
  serve_logs r credential st =
      let (st', logs) =
        handle_logs unmarshal parse_url cli credential (r.upgraded) (r.message) (r.cid) st in
      finish r st' logs
