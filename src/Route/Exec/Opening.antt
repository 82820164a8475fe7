-- ===== src/Route/Exec/Opening.antt =====
-- route/exec.go: what a new terminal needs, and what is left when it ends.
use container_web_tty.Base.{
  Bytes, bytes_eq_iff, insert, lookup-erase, ℕ, ◌≡◌, ◌≢◌, inl, inr, Option, arith,
}
use container_web_tty.Types.{Container, InitMessage}
use container_web_tty.Backend.{Cli}
use container_web_tty.Route.Init.{Message, Query, read_init_message}
use container_web_tty.Route.Init.Credential.{Outcome-cases, Presents, read_init_message_iff}
use container_web_tty.Route.Server.{Server}
use container_web_tty.Route.Exec.{running, process_tty, end_tty, handle_exec, not_found}

-- A terminal runs only for a first message with the server's credential, and then its master is
-- entered under the exec ID and no other entry of the server changes.
pub process_tty_running :
    (unmarshal : Bytes → Option InitMessage) (parse_url : Bytes → Option Query) (cli : Cli)
    (m : Message) (exec_id : Bytes) (c : Container) (master handle : ℕ) (title : Bytes)
    (s s' : Server) (st st' : cli.State)
    → process_tty unmarshal parse_url cli m exec_id c (inl master) s st
      ≡ (s', st', running handle title)
    → ((args : Bytes) × Presents unmarshal (s.options).credential m args)
      × (s' ≡ record s { masters = insert exec_id master s.masters })
unfolding process_tty
process_tty_running unmarshal parse_url cli m exec_id c master handle title s s' st st' e =
    elim (Outcome-cases (read_init_message unmarshal (s.options).credential m)) [
      | inl (x, refused) ↦ ground arith
      | inr (args, found) ↦ (
        (args, (read_init_message_iff unmarshal (s.options).credential m args).0 found),
        ground arith,
      )
    ]

-- After the end of a terminal its exec ID is unknown, and every other ID is as before.
pub end_tty_lem :
    (exec_id other : Bytes) (s : Server)
    → (handle_exec exec_id (end_tty exec_id s) ≡ not_found)
      × (exec_id ≢ other → handle_exec other (end_tty exec_id s) ≡ handle_exec other s)
unfolding handle_exec end_tty
end_tty_lem exec_id other s = ground (
  arith,
  bytes_eq_iff exec_id exec_id,
  bytes_eq_iff exec_id other,
  lookup-erase exec_id exec_id s.execs,
  lookup-erase other exec_id s.execs,
  lookup-erase other exec_id s.masters,
)
