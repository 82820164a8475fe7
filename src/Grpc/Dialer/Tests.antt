-- ===== src/Grpc/Dialer/Tests.antt =====
-- Tests of container/grpc/dialer.go.
use container_web_tty.Base.{length, Bytes, str, bytes_eq, ℕ, ◌≡◌, refl, ◌≢◌, ◌⊎◌, inl, true, none}
use container_web_tty.Grpc.Dialer.{Url, Auth, Dialer, socks_dialer, new_dial_option}
use container_web_tty.Grpc.Dialer.Schemes.{Dials, Fits, new_dial_option_lem}
use container_web_tty.Grpc.Dialer.Race.{
  Race, sending, sent, logged, connected, timed_out, start, Reach, here, next, succeeds, fires,
  takes_timer, dial_race,
}

abbrev url : Url
url = record { scheme = str "socks5"; host = str "127.0.0.1:1080"; user = none }

abbrev parse : Bytes → Url ⊎ Bytes
parse proxy = inl url

abbrev socks5 : Bytes → Auth → ℕ ⊎ Bytes
socks5 addr auth = inl 4

abbrev dial : Dialer → Bytes → ℕ ⊎ Bytes
dial d addr = inl 9

new_dial_option_lem_test :
    (u : Url) × (parse (str "socks5://127.0.0.1:1080") ≡ inl u)
    × Dials parse socks5 length dial (socks_dialer 4)
    × Fits parse socks5 length dial (str "socks5://127.0.0.1:1080") u (socks_dialer 4)
unfolding new_dial_option container_web_tty.Grpc.Dialer.dialer_for bytes_eq
    container_web_tty.Grpc.Dialer.tested
new_dial_option_lem_test =
    new_dial_option_lem parse socks5 length dial (str "socks5://127.0.0.1:1080") (socks_dialer 4)
      refl

-- The connection comes after the timeout.
abbrev late : Race
late = record { dialling = sending 3; fired = true; result = timed_out }

late-Reach : Reach start late
late-Reach = next (next (next here (fires refl)) (takes_timer refl refl)) (succeeds 3 refl)

dial_race_example :
    ((c : ℕ) → late.result ≡ connected c → late.dialling ≡ sent c)
    × (late.result ≡ timed_out → late.fired ≡ true)
    × ((c : ℕ) → late.dialling ≡ logged → late.result ≢ connected c)
    × ((c : ℕ) (t : Race)
        → late.result ≡ timed_out
        → late.dialling ≡ sending c
        → Reach late t
        → (t.result ≡ timed_out) × (t.dialling ≡ sending c))
dial_race_example = dial_race late late-Reach
