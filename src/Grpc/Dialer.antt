-- ===== src/Grpc/Dialer.antt =====
-- container/grpc/dialer.go: the dialer of a proxy, and the dial that runs against a timer. The URL
-- parser, the SOCKS and HTTP dialers and the outcome of their dials are parameters; a dialer and a
-- connection are numbers.
pub mod Race
pub mod Schemes
mod Tests
use container_web_tty.Base.{
  if◌then◌else◌, Bytes, str, bytes_eq, ℕ, ◌⊎◌, inl, inr, ◌||◌, Option, none, some, [], ◌++◌,
}

-- What net/url's `Parse` gives of the proxy.
pub record Url : Type 0 where
  pub scheme : Bytes
  pub host : Bytes
  pub user : Option (Bytes × Option Bytes)

-- `proxy.Auth`
pub record Auth : Type 0 where
  pub user : Bytes
  pub password : Bytes

unfoldable pub auth_of : Option (Bytes × Option Bytes) → Auth
auth_of none = record { user = []; password = [] }
auth_of (some (name, some password)) = record { user = name; password = password }
auth_of (some (name, none)) = record { user = name; password = [] }

-- `dialer`, which has one of the two.
pub data Dialer : Type 0 where
  socks_dialer : ℕ → Dialer
  proxy_dialer : ℕ → Dialer

abbrev pub test_dial_addr : Bytes
test_dial_addr = str "ipinfo.io:80"

module _ (parse : Bytes → Url ⊎ Bytes) (socks5 : Bytes → Auth → ℕ ⊎ Bytes)
    (connect_dial : Bytes → ℕ) (dial_with_timeout : Dialer → Bytes → ℕ ⊎ Bytes) where
  -- The test dial, and the dialer for the option.
  unfoldable pub tested : Dialer → Dialer ⊎ Bytes
  tested d = elim (dial_with_timeout d test_dial_addr) [ inl conn ↦ inl d | inr e ↦ inr e ]

  -- The `switch` over the scheme.
  unfoldable pub dialer_for : Bytes → Url → Dialer ⊎ Bytes
  unfolding tested auth_of
  dialer_for proxy u =
      if bytes_eq u.scheme (str "socks5")
      then elim (socks5 u.host (auth_of u.user)) [ inr e ↦ inr e | inl d ↦ tested (socks_dialer d) ]
      else if bytes_eq u.scheme (str "http") || bytes_eq u.scheme (str "https")
      then tested (proxy_dialer (connect_dial proxy))
      else inr (str "unsupport scheme " ++ u.scheme)

  -- `newDialOption`: the dialer that the option holds, or the error.
  unfoldable pub new_dial_option : Bytes → Dialer ⊎ Bytes
  unfolding dialer_for
  new_dial_option proxy = elim (parse proxy) [ inr e ↦ inr e | inl u ↦ dialer_for proxy u ]
