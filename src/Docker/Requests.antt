-- ===== src/Docker/Requests.antt =====
-- container/docker/docker.go: `Exec` and `Logs`, which ask the daemon and leave the cache alone.
mod Tests
use container_web_tty.Base.{
  if◌then◌else◌, is_empty, Bytes, str, split, Bool, true, Option, none, some, List, [], ◌∷◌, ◌++◌,
}
use container_web_tty.Types.{Container, LogOptions}
use container_web_tty.Docker.Client.{Daemon, ExecConfig, created, fails}
use container_web_tty.Docker.LogParser.{LogReadCloser, parse_container_log}

-- The command line of `Exec`: the shell, and a command in two pairs of quotes.
unfoldable pub exec_cmds : Container → List Bytes
exec_cmds c =
    if is_empty (c.exec).cmd
    then c.shell ∷ []
    else c.shell ∷ str "-c" ∷ (str "\"\"" ++ ((c.exec).cmd ++ str "\"\"")) ∷ []

-- The configuration that `Exec` sends.
unfoldable pub exec_config : Container → ExecConfig
exec_config c = record {
  privileged = (c.exec).privileged;
  cmd = exec_cmds c;
  env =
      (str "HISTCONTROL=ignoredups" ∷ str "TERM=xterm" ∷ [])
      ++ (if is_empty (c.exec).env then [] else split b' ' (c.exec).env);
  user = (c.exec).user;
}

pub data Attached : Type 0 where
  attached : Bytes → Attached
  refused : Bytes → Attached

module _ (daemon : Daemon) where
  -- `Exec`: the ID of the exec whose terminal is attached, or the error.
  unfoldable pub exec : Container → Attached
  exec c = elim (daemon.exec_create c.id (exec_config c)) [
    | fails e ↦ refused e
    | created exec_id ↦
        if is_empty exec_id
        then refused (str "exec ID empty")
        else elim (daemon.exec_attach exec_id) [ some e ↦ refused e | none ↦ attached exec_id ]
  ]

-- `container.LogsOptions` with the container's ID, as `Logs` sets them.
pub record LogsRequest : Type 0 where
  pub id : Bytes
  pub show_stderr : Bool
  pub show_stdout : Bool
  pub follow : Bool
  pub tail : Bytes

-- `Logs`: a new parser for the reader that the daemon gives, also with the error of the request.
unfoldable pub logs : (LogsRequest → Option Bytes) → LogOptions → LogReadCloser × Option Bytes
logs container_logs o = (
  parse_container_log,
  container_logs (record {
    id = o.id;
    show_stderr = true;
    show_stdout = true;
    follow = o.follow;
    tail = o.tail;
  }),
)
