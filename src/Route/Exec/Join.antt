-- ===== src/Route/Exec/Join.antt =====
-- route/share.go: the whole of `processShare`, on a master that keeps some output.
mod Tests
use container_web_tty.Base.{Bytes, str, ℕ, Bool, true, not, Option, none, some, ◌++◌}
use container_web_tty.Types.{Container, InitMessage}
use container_web_tty.Types.Tty.{SlaveTty, fork}
use container_web_tty.Route.Init.{Message}
use container_web_tty.Route.Server.{Server}
use container_web_tty.Route.Exec.{
  upgrade_failed, exec_gone, title_failed, shared, process_share, RunError, master_closed,
}

-- A request with what the libraries give it: whether the upgrade succeeds, the first message, and
-- the errors of `webtty.New` and of `Run`.
pub record Visit : Type 0 where
  pub upgraded : Bool
  pub message : Message
  pub exec_id : Bytes
  pub webtty_error : Option Bytes
  pub run_error : Option RunError

-- What the handler does: the fork that is made of the master, the title of the view and whether it
-- takes input, the message with which the websocket is closed, and the error of `Run` that is
-- logged.
pub record Joined : Type 0 where
  pub terminal : Option SlaveTty
  pub view : Option (Bytes × Bool)
  pub close_message : Option Bytes
  pub logged : Option RunError

abbrev no_view : Option Bytes → Joined
no_view message = record { terminal = none; view = none; close_message = message; logged = none }

-- The error of `Run` that is not the end of the browser's side.
unfoldable pub unexpected : Option RunError → Option RunError
unexpected (some master_closed) = none
unexpected e = e

-- The handler behind the title: the fork always collaborates.
unfoldable pub join_master : Visit → ℕ → Bytes → Bytes → Bool → Joined
unfolding fork unexpected
join_master v id outputs title permits =
    let terminal = fork id true outputs in
    elim (v.webtty_error) [
      | some e ↦ record {
        terminal = some terminal;
        view = none;
        close_message = some (str "failed to create webtty: " ++ e);
        logged = none;
      }
      | none ↦ record {
        terminal = some terminal;
        view = some (title, permits);
        close_message = none;
        logged = unexpected (v.run_error);
      }
    ]

-- `outputs` is what a master keeps, and `id` tells the new fork from others.
unfoldable pub serve_share :
    (Bytes → Option InitMessage)
    → (Bytes → Container)
    → (ℕ → Bytes)
    → ℕ
    → Visit
    → ℕ
    → Server
    → Joined
unfolding process_share join_master
serve_share unmarshal info outputs id v master s =
    elim (process_share unmarshal info (v.upgraded) (v.message) (v.exec_id) master s) [
      | upgrade_failed ↦ no_view none
      | exec_gone ↦ no_view (some (str "exec container not found, exit"))
      | title_failed ↦ no_view (some (str "failed to fill window title template: "))
      | shared handle title permits ↦ join_master v id (outputs handle) title permits
    ]
