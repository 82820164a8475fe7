-- ===== src/Grpc/Connect/Clients.antt =====
-- container/grpc/grpc.go: which servers a new client knows.
use container_web_tty.Base.{
  if◌then◌else◌, Option-cases, Sum-cases, is_empty, Bytes, bytes_eq, bytes_eq_iff, Dict, lookup,
  insert, lookup-insert, NodupKeys, insert-NodupKeys, ℕ, ◌≡◌, refl, ◌∙◌, ◌⊎◌, inl, inr, Bool, false,
  ◌||◌, Option, none, some, List, [], ◌∷◌, arith,
}
use container_web_tty.Config.{GrpcConfig}
use container_web_tty.Grpc.Dialer.{Dialer, Url, Auth}
use container_web_tty.Grpc.Client.{Remote, GrpcCli, new_cli, answering}
use container_web_tty.Grpc.Connect.{dial_all, dial_option, connect}

-- The text is in the list.
abbrev pub is_in : Bytes → List Bytes → Bool
is_in k [] = false
is_in k (x ∷ xs) = bytes_eq x k || is_in k xs

-- The client that is kept, if its server answers to a ping.
abbrev pub alive : Bytes → Option Remote → Option Remote
alive auth none = none
alive auth (some r) = if r.ping auth then some r else none

lookup-answering :
    (auth addr : Bytes) (m : Dict Remote)
    → NodupKeys m
    → lookup addr (answering auth m) ≡ alive auth (lookup addr m)
unfolding answering lookup
lookup-answering auth addr [] u = refl
lookup-answering auth addr ((k, r) ∷ m) (new, u) =
    let others = lookup-answering auth addr m u in ground (arith, others, bytes_eq_iff k addr)

module _ (dial : Option Dialer → Bytes → Option Remote) where
  dial_all-NodupKeys :
      (d : Option Dialer) (addrs : List Bytes) (m : Dict Remote)
      → NodupKeys m
      → NodupKeys (dial_all dial d addrs m)
  unfolding dial_all
  dial_all-NodupKeys d [] m u = u
  dial_all-NodupKeys d (addr ∷ addrs) m u = elim (Option-cases (dial d addr)) [
    | inl failed ↦ rw (failed, dial_all) (dial_all-NodupKeys d addrs m u)
    | inr (r, dialled) ↦
        rw (dialled, dial_all)
          (dial_all-NodupKeys d addrs (insert addr r m) (insert-NodupKeys addr r m u))
  ]

  lookup-dial_all :
      (d : Option Dialer) (addr : Bytes) (addrs : List Bytes) (m : Dict Remote)
      → lookup addr (dial_all dial d addrs m) ≡ (
          if is_in addr addrs
          then elim (dial d addr) [ some r ↦ some r | none ↦ lookup addr m ]
          else lookup addr m)
  unfolding dial_all
  lookup-dial_all d addr [] m = refl
  lookup-dial_all d addr (a ∷ addrs) m = elim (Option-cases (dial d a)) [
    | inl failed ↦
        rw (failed, dial_all) (ground (arith, lookup-dial_all d addr addrs m, bytes_eq_iff a addr))
    | inr (r, dialled) ↦
        rw (dialled, dial_all)
          (ground (
            arith,
            lookup-dial_all d addr addrs (insert a r m),
            lookup-insert addr a r m,
            bytes_eq_iff a addr,
          ))
  ]

-- The entry of a server among no others.
lookup-nothing :
    (conf : GrpcConfig) (d : Option Dialer) (addr : Bytes)
    (dial : Option Dialer → Bytes → Option Remote)
    → alive conf.auth (
        if is_in addr conf.servers
        then elim (dial d addr) [ some r ↦ some r | none ↦ lookup addr [] ]
        else lookup addr [])
      ≡ (if is_in addr conf.servers then alive conf.auth (dial d addr) else none)
unfolding lookup
lookup-nothing conf d addr dial = ground arith

known :
    (dial : Option Dialer → Bytes → Option Remote) (conf : GrpcConfig) (d : Option Dialer)
    (addr : Bytes)
    → lookup addr (answering conf.auth (dial_all dial d conf.servers []))
      ≡ (if is_in addr conf.servers then alive conf.auth (dial d addr) else none)
known dial conf d addr =
    lookup-answering conf.auth addr (dial_all dial d conf.servers [])
      (dial_all-NodupKeys dial d conf.servers [] tt)
    ∙ rw (lookup-dial_all dial d addr conf.servers []) (lookup-nothing conf d addr dial)

proxied :
    (parse : Bytes → Url ⊎ Bytes) (socks5 : Bytes → Auth → ℕ ⊎ Bytes) (connect_dial : Bytes → ℕ)
    (dial_with_timeout : Dialer → Bytes → ℕ ⊎ Bytes) (proxy e : Bytes)
    → dial_option parse socks5 connect_dial dial_with_timeout proxy ≡ inr e
    → is_empty proxy ≡ false
unfolding dial_option
proxied parse socks5 connect_dial dial_with_timeout proxy e h = ground arith

-- What the result of NewCli says of a server and of the proxy, with the option `option` for it.
abbrev pub Knows :
    (Option Dialer → Bytes → Option Remote)
    → GrpcConfig
    → Bytes
    → Option Dialer ⊎ Bytes
    → GrpcCli ⊎ Bytes
    → Type 0
Knows dial conf addr option (inl g) =
    (d : Option Dialer) × (option ≡ inl d)
    × (lookup addr g.clients
        ≡ (if is_in addr conf.servers then alive conf.auth (dial d addr) else none))
Knows dial conf addr option (inr e) = (is_empty conf.proxy ≡ false) × (option ≡ inr e)

-- NewCli fails only for a configured proxy whose dialer cannot be made. Otherwise the client knows a
-- server, by its address, exactly if the configuration names it, it can be dialled with this
-- dialer, and it answers to a ping with the configured token.
pub connect_clients :
    (parse : Bytes → Url ⊎ Bytes) (socks5 : Bytes → Auth → ℕ ⊎ Bytes) (connect_dial : Bytes → ℕ)
    (dial_with_timeout : Dialer → Bytes → ℕ ⊎ Bytes) (dial : Option Dialer → Bytes → Option Remote)
    (conf : GrpcConfig) (addr : Bytes)
    → Knows dial conf addr
        (dial_option parse socks5 connect_dial dial_with_timeout conf.proxy)
        (connect parse socks5 connect_dial dial_with_timeout dial conf)
unfolding connect new_cli
connect_clients parse socks5 connect_dial dial_with_timeout dial conf addr =
    elim (Sum-cases (dial_option parse socks5 connect_dial dial_with_timeout conf.proxy)) [
      | inl (d, e) ↦ rw (e, connect) (d, refl, known dial conf d addr)
      | inr (x, e) ↦
          rw (e, connect) (proxied parse socks5 connect_dial dial_with_timeout conf.proxy x e, refl)
    ]
