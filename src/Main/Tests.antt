-- ===== src/Main/Tests.antt =====
-- Tests of main.go, run.go and util/util.go.
use container_web_tty.Base.{
  length, Bytes, str, bytes_eq, split, ◌≤◌, ◌≡◌, refl, ◌⊎◌, inl, true, false, ◌||◌, Option, none,
  some, List, [], ◌∷◌,
}
use container_web_tty.Base.Int.{ℤ, pos, is_pos}
use container_web_tty.Config.{Config}
use container_web_tty.Samples.{options, control}
use container_web_tty.Backend.{docker, new_cli_backend}
use container_web_tty.Route.Actions.{restart}
use container_web_tty.Route.Actions.Control.{allows}
use container_web_tty.Main.{action, run}
use container_web_tty.Main.Startup.{flag, action-allows, run-serves}
use container_web_tty.Main.Signals.{
  Event, interrupt, terminate, wait_signals, signals, wait_signals_lem,
}

abbrev conf : Config
conf = record {
  debug = false;
  backend = record {
    kind = str "docker";
    docker = record { docker_host = str "/var/run/docker.sock"; ps_options = [] };
    kube = record { config_path = [] };
    grpc = record { servers = []; auth = str "password"; proxy = [] };
  };
  server = record options { control = record control { enable = false } };
}

-- No duration is given.
abbrev no_duration : Bytes → Option ℤ
no_duration text = none

abbrev started : Config
started = record conf { server = record (conf.server) { idle_time = pos 0; control = control } }

action-allows_test :
    allows (started.server).control restart
    ≡ (flag (conf.server).control restart || ((conf.server).control).all)
unfolding action split
action-allows_test = action-allows no_duration [] [] conf started restart refl

run-serves_test :
    (new_cli_backend (str "docker") ≡ inl docker)
    × ((true || false) ≡ true)
    × (true ≡ is_pos (started.server).port)
    × (false ≡ is_pos (started.server).grpc_port)
unfolding run new_cli_backend bytes_eq
run-serves_test = run-serves inl (λ kind. none) started docker true false started.server refl

abbrev twice : List Event
twice = interrupt ∷ terminate ∷ []

wait_signals_lem_test :
    ((wait_signals twice).forced ≡ true
      → ((es : List Event) × (twice ≡ terminate ∷ es)) ⊎ (2 ≤ signals twice))
    × ((wait_signals twice).result ≡ none → length twice ≤ 1)
    × ((e : Bytes)
        → (wait_signals twice).result ≡ some (some e)
        → (wait_signals twice).forced ≡ false)
wait_signals_lem_test = wait_signals_lem twice
