-- ===== src/Docker/Watch/Tests.antt =====
-- Tests of the events in container/docker/docker.go.
use mathlib.Core.Option
use container_web_tty.Base.{Bytes, str, ℕ, ◌+◌, ◌*◌, true, none, some, List, [], ◌∷◌, map}
use container_web_tty.Types.Containers
use container_web_tty.Samples.{web}
use container_web_tty.Docker.Options.{no_options}
use container_web_tty.Docker.Client.{summary_container, Daemon, DockerCli, Summary, fails, Inspect}
use container_web_tty.Docker.Watch.{Happening, event, lists, infos}

abbrev summary : Bytes → Summary
summary id = record {
  id = id;
  names = str "/web" ∷ [];
  image = str "nginx";
  command = str "nginx";
  state = str "running";
  status = str "Up 2 hours";
  networks = some [];
}

-- The container that an inspection finds.
abbrev stopped_container : Inspect
stopped_container = record {
  id = str "3333333333333333";
  name = str "/job";
  image = str "busybox";
  command = some (str "true");
  status = some (str "exited");
  networks = some [];
}

abbrev daemon : List Summary → Daemon
daemon ss = record {
  container_list = λ o. some ss;
  container_inspect = λ cid. some stopped_container;
  container_stat_path = λ cid path. true;
  container_start = λ cid. none;
  container_stop = λ cid. none;
  container_restart = λ cid. none;
  exec_create = λ cid config. fails [];
  exec_attach = λ id. none;
}

abbrev two : List Summary
two = summary web.id ∷ summary (str "1111111111112222") ∷ []

abbrev new_cli : DockerCli
new_cli = record { containers = Containers.no_containers; list_options = no_options; last_list = 0 }

abbrev second : ℕ
second = 1000000000

-- The time of the tests.
abbrev noon : ℕ
noon = 7000 * second

abbrev after : List Happening
after =
    event (noon + second) (daemon []) (str "container") (str "die")
    ∷ lists (noon + 2 * second) (daemon [])
    ∷ infos (noon + 3 * second) (daemon []) (str "333333333333")
    ∷ []

-- The cache after the first event.
abbrev filled : DockerCli
filled = record new_cli {
  containers =
      Containers.set (map (λ s. summary_container s (str "web") (str "null" ∷ []) []) two)
        Containers.no_containers;
  last_list = noon;
}
