-- ===== src/Main/Startup.antt =====
-- main.go and run.go: what the configuration that is given allows.
use container_web_tty.Base.{Bytes, ◌≡◌, ◌⊎◌, inl, Bool, true, ◌||◌, Option, arith}
use container_web_tty.Base.Int.{ℤ, is_pos}
use container_web_tty.Config.{Config, ControlConfig, ServerConfig}
use container_web_tty.Backend.{Kind, new_cli_backend}
use container_web_tty.Route.Actions.{Action, start, stop, restart}
use container_web_tty.Route.Actions.Control.{allows}
use container_web_tty.Main.{enable_control, action, serves, run}

-- The flag of an action.
abbrev pub flag : ControlConfig → Action → Bool
flag ctl start = ctl.start
flag ctl stop = ctl.stop
flag ctl restart = ctl.restart

enable_control-allows :
    (ctl : ControlConfig) (a : Action) → allows (enable_control ctl) a ≡ (flag ctl a || ctl.all)
unfolding enable_control
enable_control-allows ctl start = ground arith
enable_control-allows ctl stop = ground arith
enable_control-allows ctl restart = ground arith

-- With the configuration that the flags make, the server has the route of an action exactly if the
-- flag of that action or the flag for all is set.
pub action-allows :
    (parse_duration : Bytes → Option ℤ) (idle_time grpc_servers : Bytes) (conf conf' : Config)
    (a : Action)
    → action parse_duration idle_time grpc_servers conf ≡ inl conf'
    → allows (conf'.server).control a
      ≡ (flag (conf.server).control a || ((conf.server).control).all)
unfolding action
action-allows parse_duration idle_time grpc_servers conf conf' a e =
    let kept : (conf'.server).control ≡ enable_control (conf.server).control = ground arith in
    rw kept (enable_control-allows (conf.server).control a)

-- `run` serves only with a known backend and a positive port, and it starts exactly the servers
-- whose ports are positive.
pub run-serves :
    (parse_env : ServerConfig → ServerConfig ⊎ Bytes) (construct : Kind → Option Bytes)
    (conf : Config) (kind : Kind) (http grpc : Bool) (options : ServerConfig)
    → run parse_env construct conf ≡ serves kind http grpc options
    → (new_cli_backend (conf.backend).kind ≡ inl kind)
      × ((http || grpc) ≡ true)
      × (http ≡ is_pos options.port)
      × (grpc ≡ is_pos options.grpc_port)
unfolding run
run-serves parse_env construct conf kind http grpc options e = ground arith
