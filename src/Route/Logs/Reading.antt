-- ===== src/Route/Logs/Reading.antt =====
-- route/log.go: who may read logs.
use container_web_tty.Base.{Bytes, ℕ, ◌≡◌, refl, ◌≢◌, ◌⊎◌, inl, inr, Option, none, some}
use container_web_tty.Types.{InitMessage}
use container_web_tty.Backend.{Cli}
use container_web_tty.Route.Init.{Message, Query, read_init_message}
use container_web_tty.Route.Init.Credential.{Outcome-cases, Presents, read_init_message_iff}
use container_web_tty.Route.Logs.{reading, handle_logs}

-- The backend is reached, so that its state changes or logs are shown, only for a first message with
-- the server's credential: either there are such arguments, or the backend is left as it was and
-- nothing is shown.
pub handle_logs_lem :
    (unmarshal : Bytes → Option InitMessage) (parse_url : Bytes → Option Query) (cli : Cli)
    (credential : Bytes) (upgraded : Option Bytes) (m : Message) (cid : Bytes) (st : cli.State)
    → let result = handle_logs unmarshal parse_url cli credential upgraded m cid st in
      ((args : Bytes) × Presents unmarshal credential m args)
      ⊎ ((result.0 ≡ st) × ((handle : ℕ) (title : Bytes) → result.1 ≢ reading handle title))
unfolding handle_logs
handle_logs_lem unmarshal parse_url cli credential (some e) m cid st =
    inr (refl, λ handle title h. cc)
handle_logs_lem unmarshal parse_url cli credential none m cid st =
    elim (Outcome-cases (read_init_message unmarshal credential m)) [
      | inl (e, refused) ↦
          inr (rw (refused, handle_logs), λ handle title. rw (refused, handle_logs) (λ h. cc))
      | inr (args, found) ↦ inl (args, (read_init_message_iff unmarshal credential m args).0 found)
    ]
