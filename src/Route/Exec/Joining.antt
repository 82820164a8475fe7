-- ===== src/Route/Exec/Joining.antt =====
-- route/share.go and types/tty.go: what someone sees who joins a running terminal.
use container_web_tty.Base.{
  length, drop, concat, Bytes, lookup, ℕ, ◌≤◌, ◌≡◌, refl, ap, ◌∙◌, Bool, true, false, Option, none,
  some, List, ◌∷◌, ◌++◌, map, arith,
}
use container_web_tty.Base.{All}
use container_web_tty.Types.{Container, InitMessage}
use container_web_tty.Types.Tty.{SlaveTty, fork, max_outputs, new_outputs, absorb_all}
use container_web_tty.Types.Tty.History.{keep_last}
use container_web_tty.Types.Tty.Viewing.{join_loop, joined_view}
use container_web_tty.Route.Server.{Server}
use container_web_tty.Route.Exec.{shared, shares, handle_exec, process_share}
use container_web_tty.Route.Exec.Sharing.{join_without_credential}
use container_web_tty.Route.Exec.Join.{Visit, serve_share, join_master}

serve_share-shared :
    (unmarshal : Bytes → Option InitMessage) (info : Bytes → Container) (outputs : ℕ → Bytes)
    (id master handle : ℕ) (v : Visit) (s : Server) (title : Bytes) (permits : Bool)
    → process_share unmarshal info v.upgraded v.message v.exec_id master s
      ≡ shared handle title permits
    → v.webtty_error ≡ none
    → let joined = serve_share unmarshal info outputs id v master s in
      (joined.view ≡ some (title, permits))
      × (joined.terminal ≡ some (fork id true (outputs handle)))
unfolding serve_share join_master
serve_share-shared unmarshal info outputs id master handle v s title permits e ok = ground arith

-- Whoever opens the websocket of a running exec, whatever the first message and the server's
-- credential are, is shown a terminal that takes input exactly if the server lets its users
-- collaborate; it is never a read-only one itself, and a reader of it with a buffer of at least 1000
-- bytes, which no later piece exceeds, sees the last 1000 bytes of a new master's zero bytes with
-- the output before, what stood in the rest of the buffer, and then exactly the later pieces.
pub join_shows :
    (unmarshal : Bytes → Option InitMessage) (info : Bytes → Container) (outputs : ℕ → Bytes)
    (id master : ℕ) (v : Visit) (s : Server) (cid : Bytes) (before after : List Bytes) (p : Bytes)
    → lookup v.exec_id s.execs ≡ some cid
    → lookup v.exec_id s.masters ≡ some master
    → v.upgraded ≡ true
    → v.webtty_error ≡ none
    → outputs master ≡ absorb_all new_outputs before
    → max_outputs ≤ length p
    → All (λ m. length m ≤ length p) after
    → (handle_exec v.exec_id s ≡ shares master)
      × (title : Bytes) × (slave : SlaveTty) × (let joined =
            serve_share unmarshal info outputs id v master s in
          (joined.view ≡ some (title, (s.options).collaborate)) × (joined.terminal ≡ some slave))
      × (slave.read_only ≡ false)
      × (join_loop p after slave
          ≡ some (keep_last max_outputs (new_outputs ++ concat before) ++ drop max_outputs p)
            ∷ map some after)
unfolding fork
join_shows unmarshal info outputs id master v s cid before after p e f up ok kept l h =
    let (dispatched, (title, joins)) =
      join_without_credential unmarshal info v.message v.exec_id cid master s e f in
    let (view, terminal) =
      serve_share-shared unmarshal info outputs id master master v s title ((s.options).collaborate)
        (ground (arith, joins)) ok in
    (
      dispatched,
      title,
      fork id true (absorb_all new_outputs before),
      (view, terminal ∙ ap (λ bs. some (fork id true bs)) kept),
      refl,
      joined_view id true before after p l h,
    )
