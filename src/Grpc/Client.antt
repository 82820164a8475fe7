-- ===== src/Grpc/Client.antt =====
-- container/grpc/grpc.go: `GrpcCli`. A remote server's answers during a call are a record of
-- functions, `Remote`; `none` stands for an error of the call.
mod Merged
mod Actions
mod Complete
mod Through
mod Tests
use container_web_tty.Base.{
  ◌==◌, if◌then◌else◌, is_empty, Bytes, str, Dict, lookup, insert, Bool, true, false, not, Option,
  none, some, List, [], ◌∷◌, ◌++◌,
}
use container_web_tty.Types.{Container, no_container, LogOptions}
use container_web_tty.Types.Containers.{Containers}
use container_web_tty.Types.Containers
use container_web_tty.Proxy.Messages.{ContainerId, PbContainer, LogOpts}
use container_web_tty.Proxy.Convert.{convert_pb_container, convert_tp_container}

pub data Act : Type 0 where
  start_it stop_it restart_it : Act

-- What a remote action gives: the error of the call, or the `*pb.Err`, `none` for nil.
pub data Acted : Type 0 where
  call_failed : Bytes → Acted
  answered : Option Bytes → Acted

pub record Remote : Type 0 where
  pub ping : Bytes → Bool
  pub get_info : ContainerId → Option PbContainer
  pub list : Bytes → Option (List PbContainer)
  pub act : Act → ContainerId → Acted
  pub exec : Option Bytes
  pub send : PbContainer → Bytes → Option Bytes
  pub logs : LogOpts → Option Bytes

-- The clients are in the order in which the map is iterated.
pub record GrpcCli : Type 0 where
  pub servers : List Bytes
  pub auth : Bytes
  pub clients : Dict Remote
  pub containers : Containers

-- The clients that answer to a ping, as `NewCli` leaves them.
unfoldable pub answering : Bytes → Dict Remote → Dict Remote
answering auth [] = []
answering auth ((addr, r) ∷ rest) =
    if r.ping auth then (addr, r) ∷ answering auth rest else answering auth rest

unfoldable pub new_cli : List Bytes → Bytes → Dict Remote → GrpcCli
unfolding answering
new_cli servers auth dialled = record {
  servers = servers;
  auth = auth;
  clients = answering auth dialled;
  containers = Containers.no_containers;
}

-- `List` has collected these containers, and marked their IDs in `containerIDMap`.
pub record Collected : Type 0 where
  pub all : List Container
  pub ids : Dict Bool

-- `containerIDMap[id]`
abbrev pub is_marked : Bytes → Dict Bool → Bool
is_marked id ids = elim (lookup id ids) [ some b ↦ b | none ↦ false ]

-- The loop over the containers of one server.
unfoldable pub collect : Bytes → List PbContainer → Collected → Collected
collect addr [] acc = acc
collect addr (c ∷ cs) acc = collect addr cs (
    if is_marked c.id acc.ids then acc else record {
      all = acc.all ++ convert_pb_container (record c { loc_server = addr }) ∷ [];
      ids = insert c.id true acc.ids;
    })

-- The containers of one client, if it is alive and answers.
unfoldable pub collect_client : Bytes → Bytes → Remote → Collected → Collected
unfolding collect
collect_client auth addr r acc =
    if r.ping auth then elim (r.list auth) [ none ↦ acc | some cs ↦ collect addr cs acc ] else acc

unfoldable pub collect_all : Bytes → Dict Remote → Collected → Collected
collect_all auth [] acc = acc
collect_all auth ((addr, r) ∷ rest) acc = collect_all auth rest (collect_client auth addr r acc)

unfoldable pub list : GrpcCli → GrpcCli × List Container
list g =
    let found = (collect_all g.auth g.clients (record { all = []; ids = [] })).all in
    (record g { containers = Containers.set found g.containers }, found)

-- `GetInfo` with the containers listed.
unfoldable pub find_info : Bytes → GrpcCli → GrpcCli × Container
find_info cid g =
    let c = Containers.find cid g.containers in
    if is_empty c.id
    then (g, no_container)
    else if not (is_empty c.shell)
    then (g, c)
    else elim (lookup c.loc_server g.clients) [
      | none ↦ (g, no_container)
      | some r ↦ elim (r.get_info (record { id = cid; auth = g.auth })) [
        | none ↦ (g, no_container)
        | some p ↦ (
          record g { containers = Containers.set_shell cid p.shell g.containers },
          convert_pb_container p,
        )
      ]
    ]

unfoldable pub get_info : Bytes → GrpcCli → GrpcCli × Container
unfolding find_info
get_info cid g =
    if Containers.len g.containers == 0 then find_info cid (list g).0 else find_info cid g

abbrev pub not_found : Bytes → Bytes
not_found addr = str "location server [" ++ (addr ++ str "] not found")

-- `containerAction` with one of the three actions; the result is its error.
unfoldable pub container_action : Act → Bytes → GrpcCli → Option Bytes
container_action action cid g =
    let info = Containers.find cid g.containers in
    if is_empty info.id
    then some (str "container not found")
    else elim (lookup info.loc_server g.clients) [
      | none ↦ some (not_found info.loc_server)
      | some r ↦ elim (r.act action (record { id = cid; auth = g.auth })) [
        | call_failed e ↦ some e
        | answered err1 ↦ err1
      ]
    ]

unfoldable pub start : Bytes → GrpcCli → Option Bytes
start = container_action start_it

unfoldable pub stop : Bytes → GrpcCli → Option Bytes
stop = container_action stop_it

unfoldable pub restart : Bytes → GrpcCli → Option Bytes
restart = container_action restart_it

-- The remote end of an open stream, or an error.
pub data Opened : Type 0 where
  opened : Bytes → Opened
  refused : Bytes → Opened

-- The error of a server that does not answer; `state` is the text of `cli.state()`.
abbrev pub not_ready : Bytes → Bytes → Bytes
not_ready addr state = str "remote server " ++ (addr ++ (str " is not ready: " ++ state))

-- `Exec`: the stream to the server at the given address, over which the container was sent.
unfoldable pub exec : Bytes → Container → GrpcCli → Opened
exec state c g =
    if is_empty c.id
    then refused (str "container not found")
    else elim (lookup c.loc_server g.clients) [
      | none ↦ refused (not_found c.loc_server)
      | some r ↦
          if not (r.ping g.auth) then refused (not_ready c.loc_server state) else elim r.exec [
            | some e ↦ refused e
            | none ↦ elim (r.send (convert_tp_container c) g.auth) [
              | some e ↦ refused e
              | none ↦ opened c.loc_server
            ]
          ]
    ]

-- `Logs`, up to its pipe.
unfoldable pub logs : Bytes → LogOptions → GrpcCli → Opened
logs state o g =
    let info = Containers.find o.id g.containers in
    if is_empty info.id
    then refused (str "container not found")
    else elim (lookup info.loc_server g.clients) [
      | none ↦ refused (not_found info.loc_server)
      | some r ↦
          if not (r.ping g.auth)
          then refused (not_ready info.loc_server state)
          else elim (r.logs (record {
            follow = o.follow;
            tail = o.tail;
            c = some (record { id = info.id; auth = g.auth });
          })) [ some e ↦ refused e | none ↦ opened info.loc_server ]
    ]
