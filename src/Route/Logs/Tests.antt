-- ===== src/Route/Logs/Tests.antt =====
-- Tests of route/log.go.
use container_web_tty.Base.{
  Bytes, str, bytes_eq, ℕ, ◌+◌, ◌≡◌, ◌≢◌, ◌⊎◌, false, Option, none, some, [], ◌∷◌,
}
use container_web_tty.Types.{InitMessage}
use container_web_tty.Samples.{backend, web}
use container_web_tty.Route.Init.{Query, text_message}
use container_web_tty.Route.Init.Credential.{Presents}
use container_web_tty.Route.Logs.{log_options, reading, handle_logs}
use container_web_tty.Backend.{Cli, opened}
use container_web_tty.Route.Exec.{master_closed}
use container_web_tty.Route.Logs.Handler.{Request, serve_logs}
use container_web_tty.Route.Logs.Closed.{serve_logs_closed, asked, opened_by, logs_call}
use container_web_tty.Route.Logs.Reading.{handle_logs_lem}

abbrev decode : Bytes → Option InitMessage
decode line = some (record { arguments = []; auth_token = line })

abbrev parse_url : Bytes → Option Query
parse_url args = some (λ key. [])

handle_logs_lem_test :
    let result =
      handle_logs decode parse_url backend
        (str "secret")
        none
        (text_message (str "guess"))
        web.id
        5 in
    ((args : Bytes) × Presents decode (str "secret") (text_message (str "guess")) args)
    ⊎ ((result.0 ≡ 5) × ((handle : ℕ) (title : Bytes) → result.1 ≢ reading handle title))
handle_logs_lem_test =
    handle_logs_lem decode parse_url backend (str "secret") none (text_message (str "guess")) web.id
      5

abbrev request : Request
request = record {
  cid = web.id;
  upgraded = none;
  message = text_message (str "secret");
  webtty_error = none;
  run_error = some master_closed;
}

-- A backend that opens the reader 3 of any log.
abbrev with_logs : Cli
with_logs = record {
  State = ℕ;
  get_info = λ cid n. (n, web);
  list = λ n. (n, []);
  start = λ cid n. (n, none);
  stop = λ cid n. (n, none);
  restart = λ cid n. (n, none);
  exec = λ c n. (n, opened 1);
  logs = λ o n. (n + 1, opened 3);
}

-- The reader that the backend opened is closed when the browser's tab is.
serve_logs_closed_example :
    let h = serve_logs decode parse_url with_logs request (str "secret") 5 in
    (h.state ≡ 6) × (h.closes ≡ 3 ∷ []) × (h.crashed ≡ false)
unfolding asked opened_by logs_call log_options bytes_eq
    container_web_tty.Route.Init.read_init_message container_web_tty.Route.Init.parse_query
serve_logs_closed_example = serve_logs_closed decode parse_url with_logs request (str "secret") 5
