-- ===== src/Grpc/Connect.antt =====
-- container/grpc/grpc.go: `NewCli`, from the configuration, and `Close`. The parameters of Grpc.Dialer are
-- those of `newDialOption`, and `dial d addr` is the client that package grpc makes for a server with
-- the dialer of the proxy, `none` where it fails.
mod Clients
mod Tests
use container_web_tty.Base.{
  if◌then◌else◌, is_empty, Bytes, str, Dict, insert, ℕ, ◌⊎◌, inl, inr, Option, none, some, List, [],
  ◌∷◌, ◌++◌,
}
use container_web_tty.Config.{GrpcConfig}
use container_web_tty.Grpc.Dialer.{Dialer, Url, Auth, new_dial_option}
use container_web_tty.Grpc.Client.{Remote, GrpcCli, new_cli}

module _ (dial : Option Dialer → Bytes → Option Remote) where
  -- The loop over the servers: one that cannot be dialled is left out.
  unfoldable pub dial_all : Option Dialer → List Bytes → Dict Remote → Dict Remote
  dial_all d [] clients = clients
  dial_all d (addr ∷ addrs) clients =
      dial_all d addrs (elim (dial d addr) [ some r ↦ insert addr r clients | none ↦ clients ])

module _ (parse : Bytes → Url ⊎ Bytes) (socks5 : Bytes → Auth → ℕ ⊎ Bytes)
    (connect_dial : Bytes → ℕ) (dial_with_timeout : Dialer → Bytes → ℕ ⊎ Bytes) where
  -- The option for the proxy, if there is one.
  unfoldable pub dial_option : Bytes → Option Dialer ⊎ Bytes
  unfolding new_dial_option
  dial_option proxy =
      if is_empty proxy
      then inl none
      else elim (new_dial_option parse socks5 connect_dial dial_with_timeout proxy) [
        | inr e ↦ inr (str "create proxy dialer error: " ++ e)
        | inl d ↦ inl (some d)
      ]

  unfoldable pub connect : (Option Dialer → Bytes → Option Remote) → GrpcConfig → GrpcCli ⊎ Bytes
  unfolding dial_all dial_option
  connect dial conf = elim (dial_option conf.proxy) [
    | inr e ↦ inr e
    | inl d ↦ inl (new_cli conf.servers conf.auth (dial_all dial d conf.servers []))
  ]

-- `Close`: the clients whose own close fails, with its error, which is logged.
unfoldable pub close_all : (Bytes → Option Bytes) → Dict Remote → List (Bytes × Bytes)
close_all close [] = []
close_all close ((addr, r) ∷ rest) =
    let others = close_all close rest in
    elim (close addr) [ none ↦ others | some e ↦ (addr, e) ∷ others ]

-- It reports no error.
unfoldable pub close : (Bytes → Option Bytes) → GrpcCli → List (Bytes × Bytes) × Option Bytes
unfolding close_all
close close_client g = (close_all close_client g.clients, none)
