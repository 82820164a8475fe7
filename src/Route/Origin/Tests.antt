-- ===== src/Route/Origin/Tests.antt =====
-- Tests of the origin in route/route.go.
use container_web_tty.Base.{
  if◌then◌else◌, Bytes, str, has_prefix, ◌≡◌, refl, ◌⊎◌, inl, inr, Bool, false, Option, none, some,
  [], ◌∷◌,
}
use container_web_tty.Config.{ServerConfig}
use container_web_tty.Types.{InitMessage}
use container_web_tty.Samples.{backend, options, web}
use container_web_tty.Route.Init.{Message, Query, text_message}
use container_web_tty.Route.Server.{Server, new}
use container_web_tty.Route.Exec.Handler.{Request}
use container_web_tty.Route.Exec.Whole.{serve_exec}
use container_web_tty.Route.Origin.{Upgrader, new_server}
use container_web_tty.Route.Origin.Refused.{
  server_of, state_of, exits_of, view_of, asked_first, other_origin_refused,
}

abbrev decode : Bytes → Option InitMessage
decode line = some (record { arguments = []; auth_token = line })

abbrev parse_url : Bytes → Option Query
parse_url args = some (λ key. [])

-- The expression is a prefix of the origin.
abbrev compile : Bytes → Option (Bytes → Bool)
compile pattern = some (λ origin. has_prefix pattern origin)

abbrev guarded : ServerConfig
guarded = record options { ws_origin = str "https://tty." }

abbrev upgrade : Option (Bytes → Bool) → Bytes → Bytes ⊎ Message
upgrade none origin = inr (text_message (str "secret"))
upgrade (some check) origin =
    if check origin
    then inr (text_message (str "secret"))
    else inl (str "websocket: request origin not allowed by Upgrader.CheckOrigin")

-- An upgrade that refuses is one of its errors.
refuses :
    (check : Bytes → Bool) (origin : Bytes)
    → check origin ≡ false
    → (e : Bytes) × (upgrade (some check) origin ≡ inl e)
refuses check origin e =
    (str "websocket: request origin not allowed by Upgrader.CheckOrigin", rw e refl)

abbrev request : Request
request = record {
  exec_id = str "exec1";
  container = web;
  remote_addr = str "10.0.0.9:50112";
  upgrade = inl [];
  new_master = inl 7;
  webtty_error = none;
  run_error = none;
  ctx_err = none;
  cctx_err = none;
}

abbrev evil : Bytes
evil = str "https://evil.example"

-- `exec1` has a container and no master.
abbrev server : Server
server = record (new guarded) { execs = (str "exec1", web.id) ∷ [] }

other_origin_refused_example :
    (u : Upgrader) × (new_server compile guarded ≡ inl (new guarded, u))
    × (let o =
          serve_exec decode parse_url backend
            (λ s. s)
            (λ m. [])
            3
            (record request { upgrade = upgrade u.check_origin evil })
            server
            5 in
        (state_of o ≡ asked_first backend (str "exec1") server 5)
        × (exits_of o ≡ [])
        × (view_of o ≡ none)
        × ((server_of server o).counter.connections ≡ (server.counter).connections))
unfolding has_prefix
other_origin_refused_example =
    other_origin_refused compile guarded (λ origin. has_prefix (str "https://tty.") origin) upgrade
      evil decode parse_url backend (λ s. s) (λ m. []) 3 request server 5 refl refl
      (λ check. refuses check evil) refl (λ t. refl)
