-- ===== src/Route/Server.antt =====
-- route/route.go and route/id.go: the state of the HTTP server, and the exec IDs. A master terminal
-- is a number. The random text of `util.ID` is an argument.
use container_web_tty.Base.{
  if◌then◌else◌, is_empty, Bytes, str, Dict, lookup, insert, ℕ, Option, some, [], ◌++◌,
}
use container_web_tty.Base.FilePath.{join_path}
use container_web_tty.Config.{ServerConfig}
use container_web_tty.Route.Counter.{Counter, new_counter}

pub record Server : Type 0 where
  pub options : ServerConfig
  pub execs : Dict Bytes
  pub masters : Dict ℕ
  pub counter : Counter

-- `New`, with the counter that `Run` makes.
unfoldable pub new : ServerConfig → Server
new options = record {
  options = options;
  execs = [];
  masters = [];
  counter = new_counter options.idle_time;
}

unfoldable pub get_container_id : Bytes → Server → Option Bytes
get_container_id exec_id s = lookup exec_id s.execs

unfoldable pub set_container_id : Bytes → Bytes → Server → Server
set_container_id exec_id container_id s = record s { execs = insert exec_id container_id s.execs }

-- `handleExecRedirect`: the new server and the location, with `exec_id` from `util.ID`.
unfoldable pub handle_exec_redirect : Bytes → Bytes → Bytes → Server → Server × Bytes
unfolding set_container_id
handle_exec_redirect exec_id container_id query s =
    let base = join_path (s.options).base (str "/exec/") ++ str "/" in
    (
      set_container_id exec_id container_id s,
      if is_empty query then base ++ exec_id else base ++ (exec_id ++ (str "?" ++ query)),
    )

-- `handleWSIndex`, up to its templates: the container whose page is shown, or the 400 of an exec ID
-- that is not there. The route has one of the two parameters.
unfoldable pub handle_ws_index : Bytes → Bytes → Server → Option Bytes
unfolding get_container_id
handle_ws_index cid exec_id s = if is_empty cid then get_container_id exec_id s else some cid
