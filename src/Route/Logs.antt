-- ===== src/Route/Logs.antt =====
-- route/log.go: `handleLogs`, up to its terminal, over any backend.
mod Reading
mod Handler
mod Closed
mod Tests
use container_web_tty.Base.{
  if◌then◌else◌, is_empty, Bytes, str, bytes_eq, ℕ, inl, inr, ◌||◌, Option, none, some, ◌++◌,
}
use container_web_tty.Types.{InitMessage, LogOptions}
use container_web_tty.Backend.{Cli, opened, refused}
use container_web_tty.Route.Init.{Message, Query, arguments, denied, read_init_message, parse_query}
use container_web_tty.Route.Title.{make_title_buff}

-- How it ends, with the reader that is open where it panics, or the logs that are shown: their handle
-- and the title.
pub data Logs : Type 0 where
  fails : Bytes → Logs
  panics : ℕ → Logs
  reading : ℕ → Bytes → Logs

-- `follow` is the default, and `tail` is "10".
unfoldable pub log_options : Bytes → Query → LogOptions
log_options cid q =
    let follow = q (str "follow") in
    let tail = q (str "tail") in
    record {
      id = cid;
      follow = bytes_eq follow (str "1") || is_empty follow;
      tail = if is_empty tail then str "10" else tail;
    }

module _ (unmarshal : Bytes → Option InitMessage) (parse_url : Bytes → Option Query)
    (cli : Cli) where
  -- The backend is asked for the container and for its logs.
  unfoldable pub open_logs : LogOptions → cli.State → cli.State × Logs
  open_logs opts st =
      let (st₁, c) = cli.get_info opts.id st in
      let (st₂, result) = cli.logs opts st₁ in
      (
        st₂,
        elim result [
          | refused e ↦ fails (str "get logs error: " ++ e)
          | opened handle ↦ elim (make_title_buff c none) [
            | none ↦ panics handle
            | some title ↦ reading handle title
          ]
        ],
      )

  -- The handler with the credential of the server, the first message and the container's ID;
  -- `upgraded` is the error of `Upgrade`.
  unfoldable pub handle_logs : Bytes → Option Bytes → Message → Bytes → cli.State → cli.State × Logs
  unfolding open_logs log_options
  handle_logs credential (some e) m cid st = (st, fails (str "server error: " ++ e))
  handle_logs credential none m cid st = elim (read_init_message unmarshal credential m) [
    | denied e ↦ (st, fails (str "read init message error: " ++ e))
    | arguments args ↦ elim (parse_query parse_url args) [
      | inr e ↦ (st, fails e)
      | inl q ↦ open_logs (log_options cid q) st
    ]
  ]
