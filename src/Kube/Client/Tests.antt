-- ===== src/Kube/Client/Tests.antt =====
-- Tests of container/kube/kubectl.go.
use container_web_tty.Base.{
  str, bytes_eq, has_prefix, trim_prefix, ◌≡◌, refl, ◌≢◌, inl, true, false, none, some, [], ◌∷◌,
  map,
}
use container_web_tty.Types.{Container}
use container_web_tty.Types.Containers
use container_web_tty.Samples.{web}
use container_web_tty.Kube.Client.{Api, Pod, PodRequest, exec, list}
use container_web_tty.Kube.Client.Guards.{Runs, AllHaveId, exec-Runs, list-AllHaveId}

abbrev pod : Pod
pod = record {
  name = str "web-1";
  namespace = str "default";
  pod_ip = str "10.1.0.4";
  host_ip = str "10.0.0.2";
  phase = str "Running";
  containers = record { name = str "web"; image = str "nginx"; command = [] } ∷ [];
  container_statuses =
      record {
        container_id = str "containerd://4c01db0b339c7e65";
        name = str "web";
        ready = true;
        started = some 60;
        restart_count = 2;
      }
      ∷ record {
        container_id = [];
        name = str "side";
        ready = false;
        started = none;
        restart_count = 0;
      }
      ∷ [];
}

abbrev api : Api
api = record {
  list_pods = some (pod ∷ []);
  get_pod = λ namespace name. inl pod;
  execute = λ request. none;
  age = λ started. str "1m";
}

abbrev in_pod : Container
in_pod = record web {
  pod_name = str "web-1";
  container_name = str "web";
  namespace = str "default";
}

abbrev request : PodRequest
request = record {
  pod_name = str "web-1";
  namespace = str "default";
  subresource = str "exec";
  params =
      (str "container", str "web")
      ∷ (str "stdin", str "true")
      ∷ (str "stdout", str "true")
      ∷ (str "tty", str "true")
      ∷ (str "command", str "/bin/bash")
      ∷ (str "command", str "-l")
      ∷ [];
}

exec-Runs_example :
    Runs api in_pod
    × (str "web-1" ≡ str "web-1")
    × (str "default" ≡ str "default")
    × (str "exec" ≡ str "exec")
unfolding exec bytes_eq
exec-Runs_example = exec-Runs api in_pod request refl

list-AllHaveId_test :
    let (k, cs) = list api Containers.no_containers in
    AllHaveId cs × (api.list_pods ≢ none → Containers.list k ≡ cs)
list-AllHaveId_test = list-AllHaveId api Containers.no_containers

-- The container without an ID is left out.
lists_one : map (λ (c : Container). c.id) (list api Containers.no_containers).1 ≡ web.id ∷ []
unfolding list has_prefix container_web_tty.Kube.Client.pod_containers trim_prefix
lists_one = refl
