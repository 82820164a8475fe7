-- ===== src/Route/Exec.antt =====
-- route/exec.go and route/share.go: a websocket for an exec ID, from the request to its end.
mod Sharing
pub mod Join
mod Joining
mod Idle
mod Sessions
mod Opening
mod Twice
pub mod Handler
pub mod Calls
pub mod Releases
mod Tests
pub mod Whole
use container_web_tty.Base.{
  ltb, leb, ◌==◌, if◌then◌else◌, length, is_empty, Bytes, str, lookup, insert, erase, ℕ, ◌⊎◌, inl,
  inr, Bool, true, false, not, ◌&&◌, ◌||◌, Option, none, some, List, [], ◌∷◌, ◌++◌,
}
use container_web_tty.Base.Int.{ℤ, pos, negsuc}
use container_web_tty.Types.{Container, InitMessage, ExecOptions}
use container_web_tty.Backend.{Cli, opened, refused}
use container_web_tty.Route.Counter.{Counter, add}
use container_web_tty.Route.Init.{Message, arguments, denied, read_init_message, Query, parse_query}
use container_web_tty.Route.Title.{make_title_buff}
use container_web_tty.Route.Server.{Server, get_container_id}

-- What `handleExec` does with a request.
pub data Dispatch : Type 0 where
  not_found : Dispatch
  shares : ℕ → Dispatch
  serves : Bytes → Dispatch

unfoldable pub handle_exec : Bytes → Server → Dispatch
unfolding get_container_id
handle_exec exec_id s = elim (get_container_id exec_id s) [
  | none ↦ not_found
  | some cid ↦ elim (lookup exec_id s.masters) [ some master ↦ shares master | none ↦ serves cid ]
]

-- How `processShare` ends, or the terminal that it runs on a fork of the master: its title and
-- whether it may write.
pub data Share : Type 0 where
  upgrade_failed : Share
  exec_gone : Share
  title_failed : Share
  shared : ℕ → Bytes → Bool → Share

-- The first message is read and its error dropped. `info` is the backend's `GetInfo`.
unfoldable pub process_share :
    (Bytes → Option InitMessage) → (Bytes → Container) → Bool → Message → Bytes → ℕ → Server → Share
unfolding get_container_id
process_share unmarshal info upgraded m exec_id master s =
    let ignored = read_init_message unmarshal (s.options).credential m in
    let extra = if (s.options).collaborate then str "[SLAVE]" else str "[READONLY]" in
    if not upgraded then upgrade_failed else elim (get_container_id exec_id s) [
      | none ↦ exec_gone
      | some cid ↦ elim (make_title_buff (info cid) (some extra)) [
        | none ↦ title_failed
        | some title ↦ shared master title (s.options).collaborate
      ]
    ]

-- `int64(MaxConnection) != 0 && num > MaxConnection`
abbrev pub exceeds : ℤ → ℕ → Bool
exceeds (pos m) num = not (m == 0) && ltb m num
exceeds (negsuc m) num = true

-- The head of `generateHandleWS`: no shell, too many connections, or let in, with the counter.
pub data Admission : Type 0 where
  no_shell : Admission
  too_many : Counter → Admission
  admitted : Counter → Admission

unfoldable pub admit : ℤ → Container → Counter → Admission
admit max_connection c counter =
    if is_empty c.shell
    then no_shell
    else (let (counter', num) = add 1 counter in
        if exceeds max_connection num then too_many counter' else admitted counter')

-- strings.TrimSpace on ASCII.
abbrev is_space : ℕ → Bool
is_space c = c == 32 || (leb 9 c && leb c 13)

unfoldable pub trim_left : Bytes → Bytes
trim_left [] = []
trim_left (c ∷ s) = let rest = trim_left s in if is_space c then rest else c ∷ s

unfoldable pub trim_right : Bytes → Bytes
trim_right [] = []
trim_right (c ∷ s) = let rest = trim_right s in if is_space c && is_empty rest then [] else c ∷ rest

unfoldable pub trim_space : Bytes → Bytes
unfolding trim_left trim_right
trim_space s = trim_right (trim_left s)

-- The options of the query.
abbrev pub exec_options : Query → ExecOptions
exec_options q = record {
  cmd = q (str "cmd");
  env = q (str "env");
  user = q (str "user");
  privileged = not (is_empty (q (str "p")));
}

-- How `processTTY` ends before its terminal runs, with the terminals on which the deferred `Exit` is
-- called, or the running terminal: its handle and title.
pub data Started : Type 0 where
  panics : List ℕ → Started
  fails : Bytes → List ℕ → Started
  running : ℕ → Bytes → Started

module _ (unmarshal : Bytes → Option InitMessage) (parse_url : Bytes → Option Query)
    (cli : Cli) where
  -- `processTTY` up to `tty.Run`, for the message `m`. `new_master` is what `NewMasterTTY` returns.
  unfoldable pub process_tty :
      Message → Bytes → Container → ℕ ⊎ Bytes → Server → cli.State → Server × cli.State × Started
  process_tty m exec_id c new_master s st =
      elim (read_init_message unmarshal (s.options).credential m) [
        | denied e ↦ (s, st, fails e [])
        | arguments args ↦
            if ltb (length c.id) 7
            then (s, st, panics [])
            else elim (parse_query parse_url (trim_space args)) [
              | inr e ↦ (s, st, fails e [])
              | inl q ↦
                  let (st', result) = cli.exec (record c { exec = exec_options q }) st in
                  elim result [
                    | refused e ↦ (s, st', fails (str "exec container error: " ++ e) [])
                    | opened handle ↦ elim (make_title_buff c none) [
                      | none ↦ (s, st', panics (handle ∷ []))
                      | some title ↦ elim new_master [
                        | inr e ↦ (s, st', fails e (handle ∷ []))
                        | inl master ↦ (
                          record s { masters = insert exec_id master s.masters },
                          st',
                          running handle title,
                        )
                      ]
                    ]
                  ]
            ]
      ]

-- The deferred end of `processTTY`: if the master is dead, all slaves are.
unfoldable pub end_tty : Bytes → Server → Server
end_tty exec_id s = record s { masters = erase exec_id s.masters; execs = erase exec_id s.execs }

-- What the goroutine for the idle time meets.
pub data IdleEvent : Type 0 where
  timer_fires : IdleEvent
  active : IdleEvent
  closed : IdleEvent

-- Whether it cancels the terminal.
unfoldable pub idle_watch : List IdleEvent → Bool
idle_watch [] = false
idle_watch (timer_fires ∷ es) = true
idle_watch (active ∷ es) = idle_watch es
idle_watch (closed ∷ es) = false

-- An `error` as the switch compares it, `none` for nil.
pub data RunError : Type 0 where
  canceled : RunError
  slave_closed : RunError
  master_closed : RunError
  other : Bytes → RunError

abbrev same_error : Option RunError → Option RunError → Bool
same_error none none = true
same_error (some canceled) (some canceled) = true
same_error a b = false

-- The `closeReason` for the error of `processTTY` and the errors of the two contexts.
unfoldable pub close_reason : Option RunError → Option RunError → Option RunError → Bytes
close_reason err ctx_err cctx_err =
    if same_error err ctx_err
    then str "cancelation"
    else if same_error err cctx_err
    then str "time out"
    else elim err [
      | some slave_closed ↦ str "backend closed"
      | some master_closed ↦ str "tab closed"
      | some (other e) ↦ str "an error: " ++ e
      | some canceled ↦ str "an error: context canceled"
      | none ↦ str "an error: %!s(<nil>)"
    ]
