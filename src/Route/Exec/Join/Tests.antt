-- ===== src/Route/Exec/Join/Tests.antt =====
-- Tests of the whole handler of route/share.go.
use container_web_tty.Base.{
  length, drop, replicate, length-replicate, Bytes, str, bytes_eq, lookup, ℕ, ◌≡◌, refl, true,
  false, Option, none, some, List, [], ◌∷◌, ◌++◌, arith,
}
use container_web_tty.Types.{InitMessage}
use container_web_tty.Types.Tty.{SlaveTty, max_outputs, new_outputs, absorb_all}
use container_web_tty.Types.Tty.History.{keep_last}
use container_web_tty.Types.Tty.Viewing.{join_loop}
use container_web_tty.Samples.{options, web}
use container_web_tty.Route.Init.{read_error}
use container_web_tty.Route.Server.{Server, new}
use container_web_tty.Route.Exec.{handle_exec, shares}
use container_web_tty.Route.Exec.Join.{Visit, serve_share}
use container_web_tty.Route.Exec.Joining.{join_shows}

abbrev decode : Bytes → Option InitMessage
decode line = none

abbrev sharing : Server
sharing = record (new options) {
  execs = (str "exec1", web.id) ∷ [];
  masters = (str "exec1", 7) ∷ [];
}

-- The first message cannot even be read.
abbrev visit : Visit
visit = record {
  upgraded = true;
  message = read_error;
  exec_id = str "exec1";
  webtty_error = none;
  run_error = none;
}

abbrev before : List Bytes
before = str "$ " ∷ []

abbrev buffer : Bytes
buffer = replicate 1024 0

length-buffer : length buffer ≡ 1024
length-buffer = length-replicate {A = ℕ} 1024 0

kept_size : max_outputs ≡ 1000
unfolding max_outputs
kept_size = refl

join_shows_example :
    (handle_exec (str "exec1") sharing ≡ shares 7)
    × (title : Bytes) × (slave : SlaveTty) × (let joined =
          serve_share decode
            (λ cid. web)
            (λ handle. absorb_all new_outputs before)
            1
            visit
            7
            sharing in
        (joined.view ≡ some (title, true)) × (joined.terminal ≡ some slave))
    × (slave.read_only ≡ false)
    × (join_loop buffer (str "ls" ∷ []) slave
        ≡ some (keep_last max_outputs (new_outputs ++ str "$ ") ++ drop max_outputs buffer)
          ∷ some (str "ls")
          ∷ [])
unfolding lookup bytes_eq new
join_shows_example =
    join_shows decode (λ cid. web) (λ handle. absorb_all new_outputs before) 1 7 visit sharing
      web.id before (str "ls" ∷ []) buffer refl refl refl refl refl
      (omega (arith, length-buffer, kept_size)) (omega (arith, length-buffer), tt)
