-- ===== src/Docker/Client/Tests.antt =====
-- Tests of `listContainers` in container/docker/docker.go.
use container_web_tty.Base.{
  Bytes, str, bytes_eq, has_prefix, lookup, insert, ◌≡◌, refl, true, none, some, List, [], map,
}
use mathlib.Core.List.{◌∷◌}
use container_web_tty.Types.{Container}
use container_web_tty.Types.Containers
use container_web_tty.Docker.Options.{no_options}
use container_web_tty.Docker.Client.Info.{find_info-cached}
use container_web_tty.Samples.{web, a_container}
use container_web_tty.Docker.Client.{
  get_shell, find_info, get_container_ip, first_name, convert_all, Daemon, DockerCli, Summary,
  fails, list_containers, summary_container,
}
use container_web_tty.Docker.Client.Listing.{AllHaveShell, list_containers_forced, stale_shell}

abbrev summary : Bytes → Summary
summary id = record {
  id = id;
  names = str "/web" ∷ [];
  image = str "nginx";
  command = str "nginx";
  state = str "running";
  status = str "Up 2 hours";
  networks = some (some (str "172.17.0.2") ∷ none ∷ []);
}

abbrev summaries : List Summary
summaries = summary web.id ∷ summary (str "1111111111112222") ∷ []

abbrev daemon : Daemon
daemon = record {
  container_list = λ o. some summaries;
  container_inspect = λ cid. none;
  container_stat_path = λ cid path. true;
  container_start = λ cid. none;
  container_stop = λ cid. none;
  container_restart = λ cid. none;
  exec_create = λ cid config. fails [];
  exec_attach = λ id. none;
}

-- The cache has the first container already.
abbrev cli : DockerCli
cli = record {
  containers = Containers.set (web ∷ []) Containers.no_containers;
  list_options = no_options;
  last_list = 0;
}

abbrev ips : List Bytes
ips = str "172.17.0.2" ∷ []

abbrev listed : List Container
listed =
    summary_container (summary web.id) (str "web") [] (str "/bin/bash")
    ∷ summary_container (summary (str "1111111111112222")) (str "web") ips (str "/bin/bash")
    ∷ []

abbrev cli' : DockerCli
cli' = record cli { containers = Containers.set listed cli.containers; last_list = 7 }

listed_forced : list_containers daemon 7 true cli ≡ some (cli', listed)
unfolding container_web_tty.Types.Tty.since list_containers convert_all first_name get_container_ip
    Containers.find Containers.find_in Containers.set Containers.init Containers.find_by_prefix
    Containers.scan Containers.put Containers.put_all insert lookup bytes_eq has_prefix
listed_forced = refl

list_containers_forced_test :
    (map (λ (c : Container). c.id) listed ≡ map (λ (s : Summary). s.id) summaries)
    × (Containers.list cli'.containers ≡ listed)
    × (cli'.last_list ≡ 7)
list_containers_forced_test =
    list_containers_forced daemon 7 cli cli' summaries listed refl listed_forced

stale_shell_test :
    (d' : DockerCli) × (c : Container) × (cs : List Container) × (list_containers daemon 7 true cli
      ≡ some (d', c ∷ cs))
    × AllHaveShell (Containers.find web.id cli.containers).shell cs
unfolding first_name get_container_ip Containers.find Containers.find_in Containers.set
    Containers.init Containers.find_by_prefix Containers.scan Containers.put Containers.put_all
    insert lookup bytes_eq has_prefix
stale_shell_test =
    stale_shell daemon 7 cli (summary web.id) (summary (str "1111111111112222") ∷ []) (str "web")
      refl refl refl (refl, (str "web", refl), (ips, refl), tt)

-- The cache has the container with no shell.
abbrev bare : DockerCli
bare = record cli {
  containers = Containers.set (a_container web.id [] ∷ []) Containers.no_containers;
}

cached : lookup web.id (Containers.init bare.containers).c ≡ some (a_container web.id [])
unfolding Containers.set Containers.init Containers.put Containers.put_all insert lookup bytes_eq
cached = refl

find_info-cached_test :
    let (d, c) = find_info daemon web.id bare in
    (c ≡ some (record (a_container web.id []) { shell = get_shell daemon web.id }))
    × (some (Containers.find web.id d.containers) ≡ c)
find_info-cached_test = find_info-cached daemon web.id bare (a_container web.id []) cached refl
