-- ===== src/Main/Flags.antt =====
-- main.go: the table of flags, and where urfave/cli stores their values. What the command line and
-- the environment give for a flag is a parameter.
pub mod Table
mod Control
mod Tests
use container_web_tty.Base.{Bytes, str, Bool, false, Option, none, some, List, [], ◌∷◌, ◌++◌}
use container_web_tty.Base.Int.{ℤ, pos, negsuc}
use container_web_tty.Config.{Config}
use container_web_tty.Util.Env.{env_vars, kube_config_path}

-- `StringFlag`, `IntFlag` and `BoolFlag`.
pub data Kind : Type 0 where
  text number switch : Kind

abbrev pub Value : Kind → Type 0
Value text = Bytes
Value number = ℤ
Value switch = Bool

-- The fields of the configuration that a flag points to.
pub data Destination : Kind → Type 0 where
  address base backend docker_host docker_ps kube_config grpc_auth grpc_proxy audit_dir :
      Destination text
  port grpc_port : Destination number
  debug control_all control_start control_stop control_restart : Destination switch
  collaborate enable_audit : Destination switch

pub record Flag (k : Kind) : Type 0 where
  pub name : Bytes
  pub aliases : List Bytes
  pub env : List Bytes
  pub default : Value k
  pub destination : Option (Destination k)

abbrev pub AnyFlag : Type 0
AnyFlag = (k : Kind) × Flag k

abbrev flag :
    {k : Kind} → Bytes → List Bytes → List Bytes → Value k → Option (Destination k) → AnyFlag
flag {k} name aliases env default destination = (
  k,
  record {
    name = name;
    aliases = aliases;
    env = env;
    default = default;
    destination = destination;
  },
)

-- The flags of the container actions.
abbrev pub all_flag : Flag switch
all_flag = record {
  name = str "control-all";
  aliases = str "ctl-a" ∷ [];
  env = env_vars (str "ctl-a");
  default = false;
  destination = some control_all;
}

abbrev pub start_flag : Flag switch
start_flag = record {
  name = str "control-start";
  aliases = str "ctl-s" ∷ [];
  env = env_vars (str "ctl-s");
  default = false;
  destination = some control_start;
}

abbrev pub stop_flag : Flag switch
stop_flag = record {
  name = str "control-stop";
  aliases = str "ctl-t" ∷ [];
  env = env_vars (str "ctl-t");
  default = false;
  destination = some control_stop;
}

abbrev pub restart_flag : Flag switch
restart_flag = record {
  name = str "control-restart";
  aliases = str "ctl-r" ∷ [];
  env = env_vars (str "ctl-r");
  default = false;
  destination = some control_restart;
}

-- `appFlags`
unfoldable pub app_flags : (Bytes → Bytes) → List AnyFlag
unfolding env_vars kube_config_path
app_flags getenv =
    flag {k = text} (str "addr") ([]) (env_vars (str "address")) (str "0.0.0.0") (some address)
    ∷ flag {k = number} (str "port") (str "p" ∷ []) (env_vars (str "port")) (pos 8080) (some port)
    ∷ flag {k = text} (str "base") ([]) (env_vars (str "base")) (str "/") (some base)
    ∷ flag {k = switch} (str "debug") (str "d" ∷ []) (env_vars (str "debug")) (false) (some debug)
    ∷ flag {k = text} (str "backend") (str "b" ∷ []) (env_vars (str "backend")) (str "docker")
        (some backend)
    ∷ flag {k = text} (str "docker-host") ([])
        (env_vars (str "docker-host") ++ (str "DOCKER_HOST" ∷ [])) (str "/var/run/docker.sock")
        (some docker_host)
    ∷ flag {k = text} (str "docker-ps") ([]) (env_vars (str "docker-ps")) ([]) (some docker_ps)
    ∷ flag {k = text} (str "kube-config") ([]) (env_vars (str "kube-config"))
        (kube_config_path getenv) (some kube_config)
    ∷ flag {k = number} (str "grpc-port") ([]) (env_vars (str "grpc-port")) (negsuc 0)
        (some grpc_port)
    ∷ flag {k = text} (str "grpc-servers") ([]) (env_vars (str "grpc-servers")) ([]) (none)
    ∷ flag {k = text} (str "grpc-auth") ([]) (env_vars (str "grpc-auth")) (str "password")
        (some grpc_auth)
    ∷ flag {k = text} (str "grpc-proxy") ([]) (env_vars (str "grpc-proxy")) ([]) (some grpc_proxy)
    ∷ flag {k = text} (str "idle-time") ([]) (env_vars (str "idle-time")) ([]) (none)
    ∷ (switch, all_flag)
    ∷ (switch, start_flag)
    ∷ (switch, stop_flag)
    ∷ (switch, restart_flag)
    ∷ flag {k = switch} (str "enable-collaborate") (str "clb" ∷ []) (env_vars (str "collaborate"))
        (false) (some collaborate)
    ∷ flag {k = switch} (str "enable-audit") (str "audit" ∷ []) (env_vars (str "audit")) (false)
        (some enable_audit)
    ∷ flag {k = text} (str "audit-dir") ([]) (env_vars (str "audit-dir")) (str "audit")
        (some audit_dir)
    ∷ flag {k = switch} (str "help") (str "h" ∷ []) ([]) (false) (none)
    ∷ []

-- The field that is pointed to.
abbrev pub field : {k : Kind} → Destination k → Config → Value k
field address c = (c.server).address
field base c = (c.server).base
field backend c = (c.backend).kind
field docker_host c = ((c.backend).docker).docker_host
field docker_ps c = ((c.backend).docker).ps_options
field kube_config c = ((c.backend).kube).config_path
field grpc_auth c = ((c.backend).grpc).auth
field grpc_proxy c = ((c.backend).grpc).proxy
field audit_dir c = (c.server).audit_log_dir
field port c = (c.server).port
field grpc_port c = (c.server).grpc_port
field debug c = c.debug
field control_all c = ((c.server).control).all
field control_start c = ((c.server).control).start
field control_stop c = ((c.server).control).stop
field control_restart c = ((c.server).control).restart
field collaborate c = (c.server).collaborate
field enable_audit c = (c.server).enable_audit

-- A write through the pointer.
unfoldable pub store : {k : Kind} → Destination k → Value k → Config → Config
store address v c = record c { server = record (c.server) { address = v } }
store base v c = record c { server = record (c.server) { base = v } }
store backend v c = record c { backend = record (c.backend) { kind = v } }
store docker_host v c = record c {
  backend = record (c.backend) { docker = record ((c.backend).docker) { docker_host = v } };
}
store docker_ps v c = record c {
  backend = record (c.backend) { docker = record ((c.backend).docker) { ps_options = v } };
}
store kube_config v c = record c {
  backend = record (c.backend) { kube = record ((c.backend).kube) { config_path = v } };
}
store grpc_auth v c = record c {
  backend = record (c.backend) { grpc = record ((c.backend).grpc) { auth = v } };
}
store grpc_proxy v c = record c {
  backend = record (c.backend) { grpc = record ((c.backend).grpc) { proxy = v } };
}
store audit_dir v c = record c { server = record (c.server) { audit_log_dir = v } }
store port v c = record c { server = record (c.server) { port = v } }
store grpc_port v c = record c { server = record (c.server) { grpc_port = v } }
store debug v c = record c { debug = v }
store control_all v c = record c {
  server = record (c.server) { control = record ((c.server).control) { all = v } };
}
store control_start v c = record c {
  server = record (c.server) { control = record ((c.server).control) { start = v } };
}
store control_stop v c = record c {
  server = record (c.server) { control = record ((c.server).control) { stop = v } };
}
store control_restart v c = record c {
  server = record (c.server) { control = record ((c.server).control) { restart = v } };
}
store collaborate v c = record c { server = record (c.server) { collaborate = v } }
store enable_audit v c = record c { server = record (c.server) { enable_audit = v } }

module _ (given : (k : Kind) → Flag k → Option (Value k)) where
  -- What is given, or the default.
  unfoldable pub value_of : (k : Kind) → Flag k → Value k
  value_of k f = elim (given k f) [ some v ↦ v | none ↦ f.default ]

  unfoldable pub store_value : {k : Kind} → Option (Destination k) → Value k → Config → Config
  unfolding store
  store_value none v c = c
  store_value (some d) v c = store d v c

  -- The values of all flags, stored in the order of the list.
  unfoldable pub configure : List AnyFlag → Config → Config
  unfolding value_of store_value
  configure [] c = c
  configure ((k, f) ∷ fs) c = configure fs (store_value f.destination (value_of k f) c)
