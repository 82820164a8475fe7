-- ===== src/Route/Exec/Sharing.antt =====
-- route/share.go: who may join a terminal, and with what rights.
use container_web_tty.Base.{
  if◌then◌else◌, is_empty, Bytes, str, lookup, ℕ, ◌≡◌, true, Option, some, ◌++◌,
}
use container_web_tty.Types.{Container, InitMessage}
use container_web_tty.Route.Init.{Message}
use container_web_tty.Route.Title.{make_title_buff, make_title_buff_lem}
use container_web_tty.Route.Server.{Server}
use container_web_tty.Route.Exec.{shared, shares, handle_exec, process_share}

-- A running exec is joined by anyone who opens its websocket: whatever the first message is, and
-- whatever the credential of the server, the terminal runs on a fork of the master. It may write
-- exactly if the server lets its users collaborate.
pub join_without_credential :
    (unmarshal : Bytes → Option InitMessage) (info : Bytes → Container) (m : Message)
    (exec_id cid : Bytes) (master : ℕ) (s : Server)
    → lookup exec_id s.execs ≡ some cid
    → lookup exec_id s.masters ≡ some master
    → (handle_exec exec_id s ≡ shares master)
      × ((title : Bytes) × (process_share unmarshal info true m exec_id master s
            ≡ shared master title (s.options).collaborate))
unfolding handle_exec process_share
join_without_credential unmarshal info m exec_id cid master s e f =
    let extra = if (s.options).collaborate then str "[SLAVE]" else str "[READONLY]" in
    let title =
      (extra ++ (str " " ++ (info cid).name))
      ++ (str "@"
          ++ (if is_empty (info cid).loc_server then str "localhost" else (info cid).loc_server)) in
    let made : make_title_buff (info cid) (some extra) ≡ some title =
      make_title_buff_lem (info cid) (some extra) in
    (rw (e, f, handle_exec), (title, rw (e, made, process_share)))
