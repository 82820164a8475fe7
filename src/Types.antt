-- ===== src/Types.antt =====
-- types/types.go: the data that the components exchange.
pub mod Containers
pub mod Tty
use container_web_tty.Base.{Bytes, ℕ, Bool, false, List, []}

pub record ExecOptions : Type 0 where
  pub user : Bytes
  pub env : Bytes
  pub cmd : Bytes
  pub privileged : Bool

pub record Container : Type 0 where
  pub id : Bytes
  pub name : Bytes
  pub image : Bytes
  pub command : Bytes
  pub state : Bytes
  pub status : Bytes
  pub ips : List Bytes
  pub shell : Bytes
  pub pod_name : Bytes
  pub container_name : Bytes
  pub namespace : Bytes
  pub running_node : Bytes
  pub loc_server : Bytes
  pub exec : ExecOptions

-- `ExecOptions{}` and `Container{}`, the zero values.
abbrev pub no_exec : ExecOptions
no_exec = record { user = []; env = []; cmd = []; privileged = false }

abbrev pub no_container : Container
no_container = record {
  id = [];
  name = [];
  image = [];
  command = [];
  state = [];
  status = [];
  ips = [];
  shell = [];
  pod_name = [];
  container_name = [];
  namespace = [];
  running_node = [];
  loc_server = [];
  exec = no_exec;
}

-- The JSON answer to a container action.
pub record ContainerActionMessage : Type 0 where
  pub error : Bytes
  pub code : ℕ
  pub message : Bytes

pub record InitMessage : Type 0 where
  pub arguments : Bytes
  pub auth_token : Bytes

pub record LogOptions : Type 0 where
  pub id : Bytes
  pub follow : Bool
  pub tail : Bytes
