-- ===== src/Grpc/Dialer/Schemes.antt =====
-- container/grpc/dialer.go: which proxies give a dialer.
use container_web_tty.Base.{
  Bool-cases, Sum-cases, Bytes, str, bytes_eq, bytes_eq_iff, ℕ, ◌≡◌, sym, subst, ◌⊎◌, inl, inr,
  arith,
}
use container_web_tty.Grpc.Dialer.{
  Url, Auth, auth_of, Dialer, socks_dialer, proxy_dialer, test_dial_addr, tested, dialer_for,
  new_dial_option,
}

module _ (parse : Bytes → Url ⊎ Bytes) (socks5 : Bytes → Auth → ℕ ⊎ Bytes)
    (connect_dial : Bytes → ℕ) (dial_with_timeout : Dialer → Bytes → ℕ ⊎ Bytes) where
  -- The test dial of a dialer gives a connection.
  abbrev pub Dials : Dialer → Type 0
  Dials d = (conn : ℕ) × (dial_with_timeout d test_dial_addr ≡ inl conn)

  -- The dialer is of the kind of the proxy's scheme.
  abbrev pub Fits : Bytes → Url → Dialer → Type 0
  Fits proxy u d =
      ((u.scheme ≡ str "socks5")
        × ((n : ℕ) × (d ≡ socks_dialer n) × (socks5 u.host (auth_of u.user) ≡ inl n)))
      ⊎ (((u.scheme ≡ str "http") ⊎ (u.scheme ≡ str "https"))
          × (d ≡ proxy_dialer (connect_dial proxy)))

  tested_lem :
      (d d' : Dialer)
      → tested parse socks5 connect_dial dial_with_timeout d ≡ inl d'
      → (d ≡ d') × Dials d
  unfolding tested
  tested_lem d d' e = elim (Sum-cases (dial_with_timeout d test_dial_addr)) [
    | inl (conn, ok) ↦ (ground arith, (conn, ok))
    | inr (x, failed) ↦ absurd (ground arith)
  ]

  dialer_for_lem :
      (proxy : Bytes) (u : Url) (d : Dialer)
      → dialer_for parse socks5 connect_dial dial_with_timeout proxy u ≡ inl d
      → Dials d × Fits proxy u d
  unfolding dialer_for
  dialer_for_lem proxy u d e = elim (Bool-cases (bytes_eq u.scheme (str "socks5"))) [
    | inl socks ↦ elim (Sum-cases (socks5 u.host (auth_of u.user))) [
      | inl (n, made) ↦
          let t = tested_lem (socks_dialer n) d (ground arith) in
          (
            subst Dials t.0 t.1,
            inl ((bytes_eq_iff u.scheme (str "socks5")).0 socks, (n, sym t.0, made)),
          )
      | inr (x, failed) ↦ absurd (ground arith)
    ]
    | inr other ↦ elim (Bool-cases (bytes_eq u.scheme (str "http"))) [
      | inl http ↦
          let t = tested_lem (proxy_dialer (connect_dial proxy)) d (ground arith) in
          (subst Dials t.0 t.1, inr (inl ((bytes_eq_iff u.scheme (str "http")).0 http), sym t.0))
      | inr not_http ↦ elim (Bool-cases (bytes_eq u.scheme (str "https"))) [
        | inl https ↦
            let t = tested_lem (proxy_dialer (connect_dial proxy)) d (ground arith) in
            (
              subst Dials t.0 t.1,
              inr (inr ((bytes_eq_iff u.scheme (str "https")).0 https), sym t.0),
            )
        | inr neither ↦ absurd (ground arith)
      ]
    ]
  ]

  -- A dialer that is given has dialled the test address, and it is the one of the proxy's scheme.
  pub new_dial_option_lem :
      (proxy : Bytes) (d : Dialer)
      → new_dial_option parse socks5 connect_dial dial_with_timeout proxy ≡ inl d
      → (u : Url) × (parse proxy ≡ inl u) × Dials d × Fits proxy u d
  unfolding new_dial_option
  new_dial_option_lem proxy d e = elim (Sum-cases (parse proxy)) [
    | inl (u, ok) ↦ (let l = dialer_for_lem proxy u d (ground arith) in (u, ok, l.0, l.1))
    | inr (x, failed) ↦ absurd (ground arith)
  ]
