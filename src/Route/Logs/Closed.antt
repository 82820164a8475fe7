-- ===== src/Route/Logs/Closed.antt =====
-- route/log.go: what a request for logs asks of the backend, and what it leaves open.
use container_web_tty.Base.{
  Option-cases, Sum-cases, Bytes, ℕ, ◌≡◌, inl, inr, false, Option, none, some, List, [], ◌∷◌, arith,
}
use container_web_tty.Types.{InitMessage, LogOptions}
use container_web_tty.Backend.{Cli, opened, refused}
use container_web_tty.Route.Init.{Query, arguments, denied, read_init_message, parse_query}
use container_web_tty.Route.Title.{make_title_buff_lem}
use container_web_tty.Route.Init.Credential.{Outcome-cases}
use container_web_tty.Route.Logs.{log_options, open_logs, handle_logs}
use container_web_tty.Route.Logs.Handler.{Request, finish, serve_logs}

module _ (unmarshal : Bytes → Option InitMessage) (parse_url : Bytes → Option Query) where
  -- The options with which the backend's `Logs` is called, if it is.
  unfoldable pub logs_call : Request → Bytes → Option LogOptions
  logs_call r credential = elim (r.upgraded) [
    | some e ↦ none
    | none ↦ elim (read_init_message unmarshal credential (r.message)) [
      | denied e ↦ none
      | arguments args ↦ elim (parse_query parse_url args) [
        | inr e ↦ none
        | inl q ↦ some (log_options (r.cid) q)
      ]
    ]
  ]

module _ (cli : Cli) where
  -- The backend is asked for the container and then for its logs.
  unfoldable pub asked : Option LogOptions → cli.State → cli.State
  asked none st = st
  asked (some opts) st = (cli.logs opts (cli.get_info opts.id st).0).0

  -- The reader that it opens.
  unfoldable pub opened_by : Option LogOptions → cli.State → List ℕ
  opened_by none st = []
  opened_by (some opts) st = elim ((cli.logs opts (cli.get_info opts.id st).0).1) [
    | opened handle ↦ handle ∷ []
    | refused e ↦ []
  ]

-- What is left behind the call of the backend.
finish-open_logs :
    (unmarshal : Bytes → Option InitMessage) (parse_url : Bytes → Option Query) (cli : Cli)
    (r : Request) (opts : LogOptions) (st : cli.State)
    → let (st', logs) = open_logs unmarshal parse_url cli opts st in
      let h = finish r st' logs in
      (h.state ≡ asked cli (some opts) st)
      × (h.closes ≡ opened_by cli (some opts) st)
      × (h.crashed ≡ false)
unfolding finish open_logs asked opened_by
finish-open_logs unmarshal parse_url cli r opts st =
    ground (arith, make_title_buff_lem (cli.get_info opts.id st).1 none)

-- However a request for logs ends, the backend is asked exactly where the upgrade, the first message
-- with the server's credential and the query allow it, for the container and its logs with the
-- options of the query, and exactly the reader that it opened is closed; and the handler does not
-- panic.
pub serve_logs_closed :
    (unmarshal : Bytes → Option InitMessage) (parse_url : Bytes → Option Query) (cli : Cli)
    (r : Request) (credential : Bytes) (st : cli.State)
    → let h = serve_logs unmarshal parse_url cli r credential st in
      let call = logs_call unmarshal parse_url r credential in
      (h.state ≡ asked cli call st) × (h.closes ≡ opened_by cli call st) × (h.crashed ≡ false)
unfolding serve_logs handle_logs logs_call finish asked opened_by
serve_logs_closed unmarshal parse_url cli r credential st = elim (Option-cases (r.upgraded)) [
  | inr (e, failed) ↦ ground arith
  | inl done ↦ elim (Outcome-cases (read_init_message unmarshal credential (r.message))) [
    | inl (e, no_access) ↦ ground arith
    | inr (args, found) ↦ elim (Sum-cases (parse_query parse_url args)) [
      | inr (e, bad) ↦ ground arith
      | inl (q, good) ↦
          ground (arith, finish-open_logs unmarshal parse_url cli r (log_options r.cid q) st)
    ]
  ]
]
