-- ===== src/Config.antt =====
-- config/config.go: the configuration. `int` fields are read as integers that `main` takes from the
-- command line; a `time.Duration` counts nanoseconds.
use container_web_tty.Base.{Bytes, str, Bool, List, [], ◌∷◌}
use container_web_tty.Base.Int.{ℤ}

-- `SHELL_LIST`
abbrev pub shell_list : List Bytes
shell_list = str "/bin/bash" ∷ str "/bin/ash" ∷ str "/bin/sh" ∷ []

pub record DockerConfig : Type 0 where
  pub docker_host : Bytes
  pub ps_options : Bytes

pub record KubeConfig : Type 0 where
  pub config_path : Bytes

pub record GrpcConfig : Type 0 where
  pub servers : List Bytes
  pub auth : Bytes
  pub proxy : Bytes

pub record BackendConfig : Type 0 where
  pub kind : Bytes
  pub docker : DockerConfig
  pub kube : KubeConfig
  pub grpc : GrpcConfig

pub record ControlConfig : Type 0 where
  pub enable : Bool
  pub all : Bool
  pub start : Bool
  pub stop : Bool
  pub restart : Bool

pub record ServerConfig : Type 0 where
  pub address : Bytes
  pub port : ℤ
  pub base : Bytes
  pub grpc_port : ℤ
  pub idle_time : ℤ
  pub credential : Bytes
  pub enable_reconnect : Bool
  pub reconnect_time : ℤ
  pub max_connection : ℤ
  pub ws_origin : Bytes
  pub term : Bytes
  pub show_location : Bool
  pub collaborate : Bool
  pub enable_audit : Bool
  pub audit_log_dir : Bytes
  pub control : ControlConfig

pub record Config : Type 0 where
  pub debug : Bool
  pub backend : BackendConfig
  pub server : ServerConfig
