-- ===== src/Route/Exec/Whole.antt =====
-- route/exec.go: the whole of `handleExec`, with the backend's `GetInfo` before the terminal, and
-- `processShare` of route/share.go where the exec ID has a master.
use container_web_tty.Base.{if◌then◌else◌, Bytes, ℕ, inl, inr, true, false, Option, none, some}
use container_web_tty.Types.{InitMessage}
use container_web_tty.Backend.{Cli}
use container_web_tty.Route.Init.{Query, read_error}
use container_web_tty.Route.Server.{Server, get_container_id}
use container_web_tty.Route.Exec.{handle_exec, not_found, shares, serves}
use container_web_tty.Route.Exec.Handler.{Request, Handled, handle_ws}
use container_web_tty.Route.Exec.Join.{Visit, Joined, serve_share}

-- The same request, as `processShare` meets it.
unfoldable pub visit : Request → Visit
visit r = elim (r.upgrade) [
  | inl e ↦ record {
    upgraded = false;
    message = read_error;
    exec_id = r.exec_id;
    webtty_error = r.webtty_error;
    run_error = r.run_error;
  }
  | inr m ↦ record {
    upgraded = true;
    message = m;
    exec_id = r.exec_id;
    webtty_error = r.webtty_error;
    run_error = r.run_error;
  }
]

-- The 400 of an unknown exec ID, a view of a running terminal, or a terminal of its own; with the
-- backend's state.
pub data Served (State : Type 0) : Type 0 where
  bad_request : State → Served State
  joined : State → Joined → Served State
  handled : Handled State → Served State

-- `others` is what the other requests do to the server while the terminal runs, `outputs` is what a
-- master keeps, and `id` tells a new fork from others.
module _ (unmarshal : Bytes → Option InitMessage) (parse_url : Bytes → Option Query) (cli : Cli)
    (others : Server → Server) (outputs : ℕ → Bytes) (id : ℕ) where
  -- The `GetInfo` of `processShare`, behind the upgrade.
  unfoldable pub share_info : Visit → Server → cli.State → cli.State
  unfolding get_container_id
  share_info v s st =
      if v.upgraded
      then elim (get_container_id v.exec_id s) [ none ↦ st | some cid ↦ (cli.get_info cid st).0 ]
      else st

  unfoldable pub serve_exec : Request → Server → cli.State → Served cli.State
  unfolding handle_exec serve_share handle_ws visit share_info
  serve_exec r s st = elim (handle_exec r.exec_id s) [
    | not_found ↦ bad_request st
    | shares master ↦
        joined (share_info (visit r) s st)
          (serve_share unmarshal (λ cid. (cli.get_info cid st).1) outputs id (visit r) master s)
    | serves cid ↦
        let (st', c) = cli.get_info cid st in
        handled (handle_ws unmarshal parse_url cli others (record r { container = c }) s st')
  ]
