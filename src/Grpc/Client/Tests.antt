-- ===== src/Grpc/Client/Tests.antt =====
-- Tests of container/grpc/grpc.go.
use container_web_tty.Base.{
  Bytes, str, bytes_eq, lookup, insert, ◌≡◌, refl, ◌≢◌, true, false, none, some, [], ◌∷◌,
}
use container_web_tty.Samples.{backend, web, a_container}
use container_web_tty.Types.{no_container}
use container_web_tty.Types.Containers
use container_web_tty.Proxy.Convert.{convert_tp_container}
use container_web_tty.Proxy.Service
use container_web_tty.Grpc.Client.{
  exec, refused, not_found, Remote, GrpcCli, answered, list, find_info, start, stop, restart,
}
use container_web_tty.Grpc.Client.Merged.{has_id, Unique, AllServed, Answering, list_merged}
use container_web_tty.Grpc.Client.Complete.{some_lists_id, has_id-list}
use container_web_tty.Grpc.Client.Actions.{actions_always_fail}
use container_web_tty.Grpc.Client.Through.{handed_over, Asks, get_info_through, exec_after_info}

-- The remote end of a service over `backend`.
abbrev remote : Remote
remote = record {
  ping = λ auth. true;
  get_info = λ m. handed_over (Service.get_info backend (str "secret") (some m) 0).1;
  list = λ auth. some (convert_tp_container web ∷ convert_tp_container web ∷ []);
  act = λ action m. answered (some []);
  exec = none;
  send = λ c auth. none;
  logs = λ o. none;
}

-- It knows `web` at the server "east", without its shell.
abbrev cli : Bytes → GrpcCli
cli token = record {
  servers = str "east" ∷ [];
  auth = token;
  clients = (str "east", remote) ∷ [];
  containers =
      Containers.set (record (a_container web.id []) { loc_server = str "east" } ∷ [])
        Containers.no_containers;
}

list_merged_example :
    let (g, cs) = list (cli (str "secret")) in
    Unique cs
    × AllServed (Answering (str "secret") ((str "east", remote) ∷ [])) cs
    × (Containers.list g.containers ≡ cs)
list_merged_example = list_merged (cli (str "secret"))

actions_always_fail_test :
    (start web.id (cli []) ≢ none)
    × (stop web.id (cli []) ≢ none)
    × (restart web.id (cli []) ≢ none)
actions_always_fail_test = actions_always_fail (cli []) web.id ((λ action m e. cc), tt)

Asks-web : (token : Bytes) → Asks web.id (cli token) remote
unfolding Containers.find Containers.find_in Containers.set Containers.init Containers.put
    Containers.put_all insert lookup bytes_eq
Asks-web token = (refl, refl, refl)

get_info_through_example :
    (str "secret" ≡ str "secret"
      → (find_info web.id (cli (str "secret"))).1
        ≡ record web { exec = record (web.exec) { privileged = false } })
    × (str "secret" ≢ str "secret"
        → find_info web.id (cli (str "secret")) ≡ (cli (str "secret"), no_container))
get_info_through_example =
    get_info_through backend (str "secret") web.id 0 (cli (str "secret")) remote (λ m. refl)
      (Asks-web (str "secret"))

exec_after_info_example :
    let (g, c) = find_info web.id (cli (str "secret")) in exec [] c g ≡ refused (not_found [])
unfolding lookup bytes_eq
exec_after_info_example =
    exec_after_info backend (str "secret") web.id [] 0 (cli (str "secret")) remote (λ m. refl)
      (Asks-web (str "secret")) refl refl refl

has_id-list_example :
    has_id web.id (list (cli (str "secret"))).1
    ≡ some_lists_id (str "secret") web.id ((str "east", remote) ∷ [])
has_id-list_example = has_id-list (cli (str "secret")) web.id
