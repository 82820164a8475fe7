-- ===== src/Route/Exec/Tests.antt =====
-- Tests of route/exec.go and route/share.go.
use container_web_tty.Base.{
  length, Bytes, str, bytes_eq, lookup, insert, erase, ℕ, ◌+◌, ◌<◌, ◌≡◌, refl, ◌≢◌, inl, inr, true,
  false, Option, none, some, [], ◌∷◌,
}
use container_web_tty.Base.Int.{pos}
use container_web_tty.Types.{InitMessage}
use container_web_tty.Samples.{backend, options, web}
use container_web_tty.Route.Counter.{Counter, new_counter, count, done, idle, add}
use container_web_tty.Route.Init.{Query, read_error, text_message}
use container_web_tty.Route.Init.Credential.{Presents}
use container_web_tty.Route.Server.{Server, new, set_container_id}
use container_web_tty.Route.Exec.{
  slave_closed, close_reason, handle_exec, shares, shared, not_found, process_share, process_tty,
  running, end_tty, admit,
}
use container_web_tty.Route.Exec.Sharing.{join_without_credential}
use container_web_tty.Route.Exec.Sessions.{
  World, redirects, asks, enters, refuses, Reach, here, next, start, Within, sessions_bounded,
}
use container_web_tty.Config.{ServerConfig}
use container_web_tty.Route.Exec.Handler.{Request, handle_ws, serve, finish, leave}
use container_web_tty.Route.Exec.Releases.{Releases, handle_ws-Releases}
use container_web_tty.Route.Exec.Twice.{orphaned_session}
use container_web_tty.Route.Exec.Opening.{process_tty_running, end_tty_lem}

-- A decoder that takes the whole message for the token, and no query parameters.
abbrev decode : Bytes → Option InitMessage
decode line = some (record { arguments = []; auth_token = line })

abbrev parse_url : Bytes → Option Query
parse_url args = some (λ key. [])

abbrev server : Server
server = record (new options) { execs = (str "exec1", web.id) ∷ [] }

abbrev sharing : Server
sharing = record server { masters = (str "exec1", 7) ∷ [] }

join_without_credential_test :
    (handle_exec (str "exec1") sharing ≡ shares 7)
    × ((title : Bytes) × (process_share decode (λ cid. web) true read_error (str "exec1") 7 sharing
          ≡ shared 7 title true))
unfolding lookup bytes_eq new
join_without_credential_test =
    join_without_credential decode (λ cid. web) read_error (str "exec1") web.id 7 sharing refl refl

runs_web :
    process_tty decode parse_url backend
      (text_message (str "secret"))
      (str "exec1")
      web
      (inl 7)
      server
      5
    ≡ (
      record server { masters = insert (str "exec1") 7 server.masters },
      5,
      running 1 (str "web@localhost"),
    )
unfolding process_tty new bytes_eq container_web_tty.Route.Init.read_init_message
    container_web_tty.Route.Init.parse_query container_web_tty.Route.Title.make_title_buff
    container_web_tty.Route.Title.title_variables container_web_tty.Route.Title.merge_units lookup
    container_web_tty.Route.Title.add_names insert container_web_tty.Route.Title.merge_unit
runs_web = refl

process_tty_running_test :
    ((args : Bytes) × Presents decode
        (server.options).credential
        (text_message (str "secret"))
        args)
    × (record server { masters = insert (str "exec1") 7 server.masters }
        ≡ record server { masters = insert (str "exec1") 7 server.masters })
process_tty_running_test =
    process_tty_running decode parse_url backend (text_message (str "secret")) (str "exec1") web 7 1
      (str "web@localhost") server
      (record server { masters = insert (str "exec1") 7 server.masters }) 5 5 runs_web

end_tty_lem_test :
    (handle_exec (str "exec1") (end_tty (str "exec1") sharing) ≡ not_found)
    × (str "exec1" ≢ str "exec2"
        → handle_exec (str "exec2") (end_tty (str "exec1") sharing)
          ≡ handle_exec (str "exec2") sharing)
end_tty_lem_test = end_tty_lem (str "exec1") (str "exec2") sharing

-- A counter of `n` connections with a positive idle time.
abbrev counter : ℕ → Counter
counter n = record { duration = pos 60; timer = idle; wg = n; connections = n }

abbrev entered_server : Server
entered_server = set_container_id (str "exec1") web.id (new options)

abbrev one : World
one = record {
  server = record entered_server { counter = counter 1 };
  asked = [];
  live = record { exec_id = str "exec1"; entered = false } ∷ [];
  leaving = 0;
}

abbrev two : World
two = record one { server = record (one.server) { counter = counter 2 }; leaving = 1 }

-- The first handler is let in, and the second is turned away.
reached : Reach (start options) two
unfolding admit add new new_counter set_container_id handle_exec lookup bytes_eq
    container_web_tty.Route.Server.get_container_id insert
reached =
    let first = next here (redirects (str "exec1") web.id) in
    let both =
      next (next first (asks (str "exec1") web.id refl)) (asks (str "exec1") web.id refl) in
    next (next both (enters (str "exec1") [] (str "exec1" ∷ []) web (counter 1) refl refl))
      (refuses (str "exec1") [] [] web (counter 2) refl refl)

sessions_bounded_example :
    Within (pos 1) (length two.live)
    × (count (two.server).counter ≡ length two.live + two.leaving)
    × (0 < length two.live + two.leaving → done (two.server).counter ≢ none)
sessions_bounded_example = sessions_bounded options two reached

-- Without a limit of connections.
abbrev free : ServerConfig
free = record options { max_connection = pos 0 }

orphaned_session_example :
    (w w' : World) × Reach (start free) w
    × (w.asked ≡ str "exec1" ∷ str "exec1" ∷ [])
    × (w.live ≡ [])
    × Reach w w'
    × (w'.asked ≡ [])
    × (w'.live ≡ record { exec_id = str "exec1"; entered = true } ∷ [])
    × (handle_exec (str "exec1") w'.server ≡ not_found)
orphaned_session_example = orphaned_session free (str "exec1") web.id web 1 2 refl refl

-- A request whose terminal runs until the container's process ends.
abbrev request : Request
request = record {
  exec_id = str "exec1";
  container = web;
  remote_addr = str "10.0.0.9:50112";
  upgrade = inr (text_message (str "secret"));
  new_master = inl 7;
  webtty_error = none;
  run_error = some slave_closed;
  ctx_err = none;
  cctx_err = none;
}

-- Another exec ID gets a master meanwhile.
abbrev meanwhile : Server → Server
meanwhile s = record s { masters = insert (str "exec2") 8 s.masters }

ended_web :
    let h = handle_ws decode parse_url backend meanwhile request server 5 in
    (h.exits ≡ 1 ∷ [])
    × (h.entered ≡ true)
    × (h.reason ≡ some (str "backend closed"))
    × ((h.server).masters ≡ (str "exec2", 8) ∷ [])
    × ((h.server).execs ≡ [])
unfolding handle_ws serve finish leave admit add done new new_counter process_tty end_tty
    close_reason bytes_eq container_web_tty.Route.Init.read_init_message
    container_web_tty.Route.Init.parse_query container_web_tty.Route.Title.make_title_buff
    container_web_tty.Route.Title.title_variables container_web_tty.Route.Title.merge_units lookup
    container_web_tty.Route.Title.add_names insert container_web_tty.Route.Title.merge_unit erase
ended_web = (refl, refl, refl, refl, refl)

handle_ws-Releases_example :
    Releases decode parse_url backend meanwhile request server 5
      (handle_ws decode parse_url backend meanwhile request server 5)
handle_ws-Releases_example =
    handle_ws-Releases decode parse_url backend meanwhile request server 5 (λ t. refl)
