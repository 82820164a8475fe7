-- ===== src/Proxy/Messages.antt =====
-- proxy/pb/api.proto: the messages. A field of message type is a pointer, `none` for nil.
use container_web_tty.Base.{Bytes, Bool, Option, List}
use container_web_tty.Base.Int.{ℤ}

pub record Empty : Type 0 where
  pub auth : Bytes

pub record ContainerId : Type 0 where
  pub id : Bytes
  pub auth : Bytes

pub record LogOpts : Type 0 where
  pub c : Option ContainerId
  pub follow : Bool
  pub tail : Bytes

pub record PbContainer : Type 0 where
  pub id : Bytes
  pub name : Bytes
  pub image : Bytes
  pub command : Bytes
  pub state : Bytes
  pub status : Bytes
  pub ips : List Bytes
  pub shell : Bytes
  pub pod_name : Bytes
  pub container_name : Bytes
  pub namespace : Bytes
  pub running_node : Bytes
  pub loc_server : Bytes
  pub exec_cmd : Bytes
  pub exec_user : Bytes
  pub exec_env : Bytes

pub record Io : Type 0 where
  pub input : Bytes
  pub output : Bytes

pub record WindowSize : Type 0 where
  pub height : ℤ
  pub width : ℤ

pub record ExecMessage : Type 0 where
  pub cmd : Option Io
  pub c : Option PbContainer
  pub auth : Bytes
  pub ws : Option WindowSize
