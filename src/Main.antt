-- ===== src/Main.antt =====
-- main.go and run.go: from the flags to the servers. The duration parser of package time, ecp's
-- `Parse` and the constructors of the backends are parameters.
pub mod Flags
mod Startup
mod Program
mod Signals
mod Tests
use container_web_tty.Base.{
  if◌then◌else◌, is_empty, Bytes, str, split, ◌⊎◌, inl, inr, Bool, true, false, not, ◌&&◌, ◌||◌,
  Option, none, some, List, [], ◌∷◌, ◌++◌,
}
use container_web_tty.Base.Int.{ℤ, pos, is_pos}
use container_web_tty.Config.{Config, ControlConfig, ServerConfig}
use container_web_tty.Backend.{Kind, new_cli_backend}

-- `ctl.Start || ctl.Stop || ctl.Restart || ctl.All` switches the actions on.
unfoldable pub enable_control : ControlConfig → ControlConfig
enable_control ctl =
    if ctl.start || (ctl.stop || (ctl.restart || ctl.all))
    then record ctl { enable = true }
    else ctl

-- `conf.Backend.GRPC.Servers`, from the text of the flag.
unfoldable pub set_servers : Bytes → List Bytes → List Bytes
set_servers text servers = elim (split b',' text) [
  | [] ↦ servers
  | first ∷ more ↦ if is_empty first then servers else first ∷ more
]

-- The `Action` of the application up to `run`: the configuration, or a fatal error. The parser gives
-- 0 with an error.
unfoldable pub action : (Bytes → Option ℤ) → Bytes → Bytes → Config → Config ⊎ Bytes
unfolding enable_control set_servers
action parse_duration idle_time grpc_servers conf =
    let parsed = parse_duration idle_time in
    let idle : ℤ = elim parsed [ some d ↦ d | none ↦ pos 0 ] in
    let failed : Bool = elim parsed [ some d ↦ false | none ↦ not (is_empty idle_time) ] in
    if failed
    then inr (str "parse idle-time error")
    else inl (record conf {
      server = record (conf.server) {
        idle_time = idle;
        control = enable_control (conf.server).control;
      };
      backend = record (conf.backend) {
        grpc = record ((conf.backend).grpc) {
          servers = set_servers grpc_servers ((conf.backend).grpc).servers;
        };
      };
    })

-- How `run` goes on: a fatal error, or the backend with the HTTP server, the gRPC server or both.
pub data Started : Type 0 where
  fatal : Bytes → Started
  serves : Kind → Bool → Bool → ServerConfig → Started

module _ (parse_env : ServerConfig → ServerConfig ⊎ Bytes) (construct : Kind → Option Bytes) where
  unfoldable pub run : Config → Started
  run conf =
      let options =
        if is_empty ((conf.backend).grpc).servers
        then conf.server
        else record (conf.server) { show_location = true } in
      elim (parse_env options) [
        | inr e ↦ fatal e
        | inl srv ↦
            if not (is_pos srv.grpc_port) && not (is_pos srv.port)
            then fatal (str "bad config, no port listenning")
            else elim (new_cli_backend (conf.backend).kind) [
              | inr e ↦ fatal (str "Create backend client error: " ++ e)
              | inl kind ↦ elim (construct kind) [
                | some e ↦ fatal (str "Create backend client error: " ++ e)
                | none ↦ serves kind (is_pos srv.port) (is_pos srv.grpc_port) srv
              ]
            ]
      ]
