-- ===== src/Grpc/Client/Through.antt =====
-- container/grpc/grpc.go with proxy/server.go at the other end: `GetInfo` from end to end.
use container_web_tty.Base.{
  is_empty, Bytes, bytes_eq, bytes_eq_iff, lookup, ◌≡◌, ap, ◌∙◌, ◌≢◌, true, false, Option, none,
  some, arith,
}
use container_web_tty.Types.{no_container, Container}
use container_web_tty.Types.Containers
use container_web_tty.Backend.{Cli}
use container_web_tty.Proxy.Messages.{ContainerId, PbContainer}
use container_web_tty.Proxy.Convert.{convert_both_ways, convert_pb_container, convert_tp_container}
use container_web_tty.Proxy.Service
use container_web_tty.Proxy.Service.{Reply, one, check_auth, check_nil, guarded}
use container_web_tty.Grpc.Client.{Remote, GrpcCli, find_info, exec, refused, not_found}

-- What the transport hands over of a reply to `GetInfo`.
abbrev pub handed_over : Reply → Option PbContainer
handed_over (one c) = some c
handed_over _ = none

-- The remote server is a service over the backend `cli` in the state `st`, with the token `expected`.
abbrev pub Serves : (cli : Cli) → Bytes → cli.State → Remote → Type 0
Serves cli expected st r =
    (m : ContainerId) → r.get_info m ≡ handed_over (Service.get_info cli expected (some m) st).1

-- The container is in the cache with no shell yet, and belongs to the server at its address.
abbrev pub Asks : Bytes → GrpcCli → Remote → Type 0
Asks cid g r =
    let c = Containers.find cid g.containers in
    (is_empty c.id ≡ false) × (is_empty c.shell ≡ true) × (lookup c.loc_server g.clients ≡ some r)

served_right :
    (cli : Cli) (m : ContainerId) (expected : Bytes) (st : cli.State)
    → m.auth ≡ expected
    → handed_over (Service.get_info cli expected (some m) st).1
      ≡ some (convert_tp_container (cli.get_info m.id st).1)
unfolding Service.get_info check_auth check_nil
served_right cli m expected st e =
    let passes : bytes_eq m.auth expected ≡ true = (bytes_eq_iff m.auth expected).1 e in
    rw (passes, handed_over, check_auth, Service.get_info, guarded)

served_wrong :
    (cli : Cli) (m : ContainerId) (expected : Bytes) (st : cli.State)
    → m.auth ≢ expected
    → handed_over (Service.get_info cli expected (some m) st).1 ≡ none
unfolding Service.get_info check_auth check_nil
served_wrong cli m expected st e =
    let refused : bytes_eq m.auth expected ≡ false = ground (arith, bytes_eq_iff m.auth expected) in
    rw (refused, handed_over, check_auth, Service.get_info, guarded)

module _ (cid : Bytes) (g : GrpcCli) (r : Remote) (asks : Asks cid g r) where
  abbrev request : ContainerId
  request = record { id = cid; auth = g.auth }

  find_info-some :
      (p : PbContainer) → r.get_info request ≡ some p → (find_info cid g).1 ≡ convert_pb_container p
  unfolding find_info
  find_info-some p e = rw (asks.0, asks.1, asks.2, e)

  find_info-clients :
      (p : PbContainer) → r.get_info request ≡ some p → (find_info cid g).0.clients ≡ g.clients
  unfolding find_info
  find_info-clients p e = rw (asks.0, asks.1, asks.2, e)

  find_info-none : r.get_info request ≡ none → find_info cid g ≡ (g, no_container)
  unfolding find_info
  find_info-none e = rw (asks.0, asks.1, asks.2, e)

-- Where the cache has the container without a shell, of a server that serves a backend: with the
-- server's token the caller gets the container that the remote backend gives, except that
-- it is not privileged; with another token it gets the zero value, and the cache is unchanged.
pub get_info_through :
    (cli : Cli) (expected cid : Bytes) (st : cli.State) (g : GrpcCli) (r : Remote)
    → Serves cli expected st r
    → Asks cid g r
    → let c = (cli.get_info cid st).1 in
      (g.auth ≡ expected
        → (find_info cid g).1 ≡ record c { exec = record (c.exec) { privileged = false } })
      × (g.auth ≢ expected → find_info cid g ≡ (g, no_container))
get_info_through cli expected cid st g r serves asks =
    let m = request cid g r asks in
    let c = (cli.get_info cid st).1 in
    (
      λ same.
          find_info-some cid g r asks (convert_tp_container c)
            (serves m ∙ served_right cli m expected st same)
          ∙ (convert_both_ways c (convert_tp_container c)).0,
      λ differ. find_info-none cid g r asks (serves m ∙ served_wrong cli m expected st differ),
    )

-- The container that such a `GetInfo` returns has the location that the remote backend gives it, not
-- the server's address: where no server is known by that location, `Exec` in it is refused.
pub exec_after_info :
    (cli : Cli) (expected cid state : Bytes) (st : cli.State) (g : GrpcCli) (r : Remote)
    → Serves cli expected st r
    → Asks cid g r
    → g.auth ≡ expected
    → is_empty ((cli.get_info cid st).1).id ≡ false
    → lookup ((cli.get_info cid st).1).loc_server g.clients ≡ none
    → let (g', c) = find_info cid g in
      exec state c g' ≡ refused (not_found ((cli.get_info cid st).1).loc_server)
unfolding exec
exec_after_info cli expected cid state st g r serves asks same named nowhere =
    let c = (cli.get_info cid st).1 in
    let p = convert_tp_container c in
    let m = request cid g r asks in
    let served = serves m ∙ served_right cli m expected st same in
    let info = find_info-some cid g r asks p served ∙ (convert_both_ways c p).0 in
    let known = find_info-clients cid g r asks p served in
    rw (info, known, named, nowhere) (ap (λ (x : Container). refused (not_found x.loc_server)) info)
