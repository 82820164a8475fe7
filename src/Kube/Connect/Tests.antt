-- ===== src/Kube/Connect/Tests.antt =====
-- Tests of `NewCli` in container/kube/kubectl.go.
use container_web_tty.Base.{
  Bytes, str, bytes_eq, has_prefix, trim_prefix, join, lookup, insert, ℕ, ◌/◌, ◌≡◌, refl, ◌⊎◌, inl,
  true, Option, none, some, [], ◌∷◌,
}
use container_web_tty.Config.{KubeConfig, shell_list}
use container_web_tty.Types.{Container, no_container}
use container_web_tty.Types.Containers.{Containers}
use container_web_tty.Types.Containers.Exact.{last_named}
use container_web_tty.Kube.Client.{
  Api, Pod, get_info, pod_containers, trim_container_id_prefix, status_container, status_containers,
  container_map,
}
use container_web_tty.Kube.Connect.{new_cli, connected}
use container_web_tty.Kube.Connect.Info.{IsFirst, has_path, new_cli_info}

abbrev pod : Pod
pod = record {
  name = str "web-1";
  namespace = str "default";
  pod_ip = str "10.1.0.4";
  host_ip = str "10.0.0.2";
  phase = str "Running";
  containers = record { name = str "web"; image = str "nginx"; command = [] } ∷ [];
  container_statuses =
      record {
        container_id = str "containerd://4c01db0b339c7e65";
        name = str "web";
        ready = true;
        started = some 60;
        restart_count = 2;
      }
      ∷ [];
}

-- Every path exists in its containers.
abbrev api : Api
api = record {
  list_pods = some (pod ∷ []);
  get_pod = λ namespace name. inl pod;
  execute = λ request. none;
  age = λ started. str "1m";
}

abbrev gone : Api
gone = record api { list_pods = none; execute = λ request. some (str "exit status 2") }

abbrev build : Bytes → ℕ ⊎ Bytes
build path = inl 3

abbrev make : ℕ → Api ⊎ Bytes
make config = inl api

abbrev any_namespaces : Api → Option Bytes
any_namespaces client = none

abbrev conf : KubeConfig
conf = record { config_path = str "/root/.kube/config" }

abbrev listed : Container
listed = record no_container {
  id = str "4c01db0b339c7e65";
  pod_name = str "web-1";
  container_name = str "web";
  namespace = str "default";
  name = str "web";
  state = str "Ready / Running";
  status = str "age: 1m; restart 2";
  ips = str "10.1.0.4" ∷ str "10.0.0.2" ∷ [];
  image = str "nginx";
}

finds : last_named (str "4c01db0b339c") (pod_containers api (pod ∷ [])) ≡ some listed
unfolding last_named pod_containers status_containers status_container container_map
    trim_container_id_prefix container_web_tty.Kube.Client.container_ready trim_prefix has_prefix
    bytes_eq insert lookup join container_web_tty.Base.Int.show_nat
finds = refl

-- Later the API server lists nothing any more, and no `ls` succeeds.
new_cli_info_example :
    (k : Containers) × (sh : Bytes) × (new_cli build make any_namespaces conf ≡ connected api k)
    × ((get_info gone (str "4c01db0b339c") k).1 ≡ record listed { shell = sh })
    × IsFirst (has_path gone listed) shell_list sh
new_cli_info_example =
    new_cli_info build make any_namespaces conf 3 api gone (pod ∷ []) (str "4c01db0b339c") listed
      refl refl refl refl finds
