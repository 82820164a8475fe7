-- ===== src/Grpc/Connect/Tests.antt =====
-- Tests of `NewCli` and `Close` in container/grpc/grpc.go.
use container_web_tty.Base.{
  if◌then◌else◌, length, Bytes, str, bytes_eq, insert, ℕ, ◌≡◌, refl, ◌⊎◌, inl, inr, Option, none,
  some, [], ◌∷◌,
}
use container_web_tty.Config.{GrpcConfig}
use container_web_tty.Grpc.Dialer.{Url, Auth, Dialer}
use container_web_tty.Grpc.Client.{Remote, GrpcCli, new_cli, answered, answering}
use container_web_tty.Grpc.Connect.{dial_all, dial_option, connect, close, close_all}
use container_web_tty.Grpc.Connect.Clients.{Knows, connect_clients}

-- A server that takes the token "secret".
abbrev remote : Remote
remote = record {
  ping = λ auth. bytes_eq auth (str "secret");
  get_info = λ m. none;
  list = λ auth. none;
  act = λ action m. answered (some []);
  exec = none;
  send = λ c auth. none;
  logs = λ o. none;
}

abbrev parse : Bytes → Url ⊎ Bytes
parse proxy = inr (str "bad url")

abbrev socks5 : Bytes → Auth → ℕ ⊎ Bytes
socks5 addr auth = inl 4

abbrev dial_with_timeout : Dialer → Bytes → ℕ ⊎ Bytes
dial_with_timeout d addr = inl 9

-- The server "west" cannot be dialled.
abbrev dial : Option Dialer → Bytes → Option Remote
dial d addr = if bytes_eq addr (str "west") then none else some remote

abbrev conf : GrpcConfig
conf = record {
  servers = str "west" ∷ str "east" ∷ str "east" ∷ [];
  auth = str "secret";
  proxy = [];
}

abbrev east : GrpcCli
east = new_cli conf.servers conf.auth ((str "east", remote) ∷ [])

connects : connect parse socks5 length dial_with_timeout dial conf ≡ inl east
unfolding connect dial_option dial_all insert bytes_eq
connects = refl

connect_clients_example :
    Knows dial conf
      (str "east")
      (dial_option parse socks5 length dial_with_timeout conf.proxy)
      (connect parse socks5 length dial_with_timeout dial conf)
connect_clients_example =
    connect_clients parse socks5 length dial_with_timeout dial conf (str "east")

-- The error of a client is logged, and none is returned.
closes : close (λ addr. some (str "closing")) east ≡ ((str "east", str "closing") ∷ [], none)
unfolding close close_all new_cli answering bytes_eq
closes = refl
