-- ===== src/Samples.antt =====
-- Containers, a configuration and a backend that the tests run the program on.
use container_web_tty.Base.{Bytes, str, ℕ, ◌+◌, true, false, none, some, [], ◌∷◌}
use container_web_tty.Base.Int.{pos}
use container_web_tty.Types.{Container, no_container}
use container_web_tty.Backend.{Cli, opened, refused}
use container_web_tty.Config.{ControlConfig, ServerConfig}

abbrev pub a_container : Bytes → Bytes → Container
a_container id shell = record no_container { id = id; name = str "web"; shell = shell }

abbrev pub web : Container
web = a_container (str "4c01db0b339c7e65") (str "/bin/bash")

abbrev pub database : Container
database = a_container (str "9f2e77aa01c4d0b8") []

-- It counts the actions, knows `web`, and opens the terminal 1 of any container.
abbrev pub backend : Cli
backend = record {
  State = ℕ;
  get_info = λ cid n. (n, web);
  list = λ n. (n, web ∷ []);
  start = λ cid n. (n + 1, none);
  stop = λ cid n. (n + 1, some (str "no such container"));
  restart = λ cid n. (n + 1, none);
  exec = λ c n. (n, opened 1);
  logs = λ o n. (n, refused (str "no logs"));
}

-- `start` is enabled alone.
abbrev pub control : ControlConfig
control = record { enable = true; all = false; start = true; stop = false; restart = false }

-- At most one connection, and a credential.
abbrev pub options : ServerConfig
options = record {
  address = str "0.0.0.0";
  port = pos 8080;
  base = str "/";
  grpc_port = pos 0;
  idle_time = pos 60;
  credential = str "secret";
  enable_reconnect = false;
  reconnect_time = pos 0;
  max_connection = pos 1;
  ws_origin = [];
  term = [];
  show_location = false;
  collaborate = true;
  enable_audit = false;
  audit_log_dir = str "audit";
  control = control;
}
