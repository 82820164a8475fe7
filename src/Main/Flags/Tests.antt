-- ===== src/Main/Flags/Tests.antt =====
-- Tests of the flags of main.go.
use container_web_tty.Base.{
  if◌then◌else◌, Bytes, str, bytes_eq, split, ◌≡◌, refl, Bool, true, false, not, ◌&&◌, ◌||◌, Option,
  none, some, List, [], ◌∷◌, ◌++◌, map,
}
use container_web_tty.Base.Int.{pos}
use container_web_tty.Config.{Config}
use container_web_tty.Samples.{options, control}
use container_web_tty.Util.Env.{env_vars}
use container_web_tty.Main.Flags.{
  restart_flag, stop_flag, all_flag, start_flag, Kind, text, number, switch, Value, Flag, AnyFlag,
  app_flags, configure,
}
use container_web_tty.Main.{action, enable_control}
use container_web_tty.Route.Pages.{Handler, routes}
use container_web_tty.Route.Pages.Routing.{posts}
use container_web_tty.Main.Flags.Control.{wanted, is_set, flags_routes}
use container_web_tty.Main.Flags.Table.{AllStored, Kept, configure_lem}

-- The zero configuration.
abbrev zero_config : Config
zero_config = record {
  debug = false;
  backend = record {
    kind = [];
    docker = record { docker_host = []; ps_options = [] };
    kube = record { config_path = [] };
    grpc = record { servers = []; auth = []; proxy = [] };
  };
  server = record options { max_connection = pos 0; control = record control { enable = false } };
}

-- Only `-p 80` is given.
abbrev given : (k : Kind) → Flag k → Option (Value k)
given text f = none
given number f = if bytes_eq f.name (str "port") then some (pos 80) else none
given switch f = none

abbrev getenv : Bytes → Bytes
getenv name = []

configure_lem_test :
    AllStored given (app_flags getenv) (configure given (app_flags getenv) zero_config)
    × Kept given zero_config (configure given (app_flags getenv) zero_config)
configure_lem_test = configure_lem given getenv zero_config

-- Every way to name a flag.
abbrev names : List AnyFlag → List Bytes
names [] = []
names ((k, f) ∷ fs) = f.name ∷ (f.aliases ++ names fs)

abbrev envs : List AnyFlag → List Bytes
envs [] = []
envs ((k, f) ∷ fs) = f.env ++ envs fs

abbrev occurs : Bytes → List Bytes → Bool
occurs b [] = false
occurs b (c ∷ cs) = bytes_eq b c || occurs b cs

abbrev distinct : List Bytes → Bool
distinct [] = true
distinct (b ∷ bs) = not (occurs b bs) && distinct bs

distinct-names : distinct (names (app_flags getenv)) ≡ true
unfolding app_flags bytes_eq
distinct-names = refl

distinct-envs : distinct (envs (app_flags getenv)) ≡ true
unfolding app_flags bytes_eq env_vars
distinct-envs = refl

default_backend : ((configure given (app_flags getenv) zero_config).backend).kind ≡ str "docker"
unfolding configure app_flags container_web_tty.Main.Flags.store_value
    container_web_tty.Main.Flags.store container_web_tty.Main.Flags.value_of
default_backend = refl

-- Of the switches only the one for the restart is given.
abbrev given_restart : (k : Kind) → Flag k → Option (Value k)
given_restart text f = none
given_restart number f = none
given_restart switch f = if bytes_eq f.name (str "control-restart") then some true else none

abbrev with_restart : Config
with_restart = configure given_restart (app_flags getenv) zero_config

flags_routes_example :
    posts (routes [] (enable_control (with_restart.server).control))
    ≡ map
        (λ a. Handler.control a)
        (wanted
          (is_set given_restart start_flag || is_set given_restart all_flag)
          (is_set given_restart stop_flag || is_set given_restart all_flag)
          (is_set given_restart restart_flag || is_set given_restart all_flag))
unfolding action split
flags_routes_example = flags_routes given_restart getenv zero_config _ (λ t. none) [] [] [] refl
