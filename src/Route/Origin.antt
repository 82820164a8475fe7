-- ===== src/Route/Origin.antt =====
-- route/route.go: `New` with the upgrader of its websockets and the check of their origin. The
-- compiler of regular expressions is a parameter: the test of an expression, or `none`.
mod Refused
mod Tests
use container_web_tty.Base.{
  if◌then◌else◌, is_empty, Bytes, str, ℕ, ◌⊎◌, inl, inr, Bool, Option, none, some, ◌++◌,
}
use container_web_tty.Config.{ServerConfig}
use container_web_tty.Route.Server.{Server, new}

-- `websocket.Upgrader`; a `CheckOrigin` that is nil leaves the check to the library.
pub record Upgrader : Type 0 where
  pub read_buffer_size : ℕ
  pub write_buffer_size : ℕ
  pub check_origin : Option (Bytes → Bool)

abbrev pub upgrader : Option (Bytes → Bool) → Upgrader
upgrader check = record { read_buffer_size = 1024; write_buffer_size = 1024; check_origin = check }

abbrev pub bad_origin : Bytes → Bytes
bad_origin ws_origin = str "failed to compile regular expression of Websocket Origin: " ++ ws_origin

unfoldable pub new_server :
    (Bytes → Option (Bytes → Bool)) → ServerConfig → (Server × Upgrader) ⊎ Bytes
unfolding new
new_server compile options =
    if is_empty options.ws_origin
    then inl (new options, upgrader none)
    else elim (compile options.ws_origin) [
      | none ↦ inr (bad_origin options.ws_origin)
      | some matches ↦ inl (new options, upgrader (some matches))
    ]
