-- ===== src/Types/Tty/Tests.antt =====
-- Tests of types/tty.go.
use container_web_tty.Base.{
  length, drop, replicate, concat, length-replicate, Bytes, str, ℕ, ◌≡◌, refl, true, none, some,
  List, [], ◌∷◌, ◌++◌, arith,
}
use container_web_tty.Types.Tty.Turns.{
  write, attempt, Attempt, master, slave, Apart, attempts, new_session, turns-Apart,
}
use container_web_tty.Types.Tty.Viewing.{join_loop, joined_view}
use container_web_tty.Types.Tty.History.{keep_last, fork_history}
use container_web_tty.Types.Tty.{
  since, slave_can_write, master_can_write, slave_write, master_write, Wrote, max_outputs,
  new_outputs, absorb_all, fork,
}

abbrev terminal : Bytes → Wrote
terminal p = (length p, none)

abbrev tries : List Attempt
tries =
    record { time = 5000000000; who = master; text = str "l" }
    ∷ record { time = 5500000000; who = slave 1; text = str "x" }
    ∷ record { time = 7000000000; who = slave 1; text = str "s" }
    ∷ record { time = 7100000000; who = slave 2; text = str "y" }
    ∷ record { time = 7200000000; who = slave 1; text = str "s" }
    ∷ []

turns-Apart_example : Apart (attempts terminal tries (new_session, [])).1
turns-Apart_example =
    turns-Apart terminal tries
      (omega arith, (omega arith, (omega arith, (omega arith, (omega arith, tt)))))

-- The second and the fourth come too soon.
turns_test :
    (attempts terminal tries (new_session, [])).1
    ≡ (7200000000, slave 1) ∷ (7000000000, slave 1) ∷ (5000000000, master) ∷ []
unfolding attempts attempt write master_write slave_write master_can_write slave_can_write since
turns_test = refl

fork_history_test :
    let slave = fork 1 true (absorb_all new_outputs (str "total 0" ∷ str "$ " ∷ [])) in
    (slave.master_outputs
      ≡ keep_last max_outputs (new_outputs ++ concat (str "total 0" ∷ str "$ " ∷ [])))
    × (length (slave.master_outputs) ≡ max_outputs)
fork_history_test = fork_history 1 true (str "total 0" ∷ str "$ " ∷ [])

kept_size : max_outputs ≡ 1000
unfolding max_outputs
kept_size = refl

joined_view_test :
    join_loop
      (replicate 1024 7)
      (str "ls" ∷ str "bin" ∷ [])
      (fork 1 true (absorb_all new_outputs (str "$ " ∷ [])))
    ≡ some (keep_last max_outputs (new_outputs ++ str "$ ") ++ drop max_outputs (replicate 1024 7))
      ∷ some (str "ls")
      ∷ some (str "bin")
      ∷ []
joined_view_test =
    joined_view 1 true (str "$ " ∷ []) (str "ls" ∷ str "bin" ∷ []) (replicate 1024 7)
      (omega (arith, length-replicate {A = ℕ} 1024 7, kept_size))
      (
        omega (arith, length-replicate {A = ℕ} 1024 7),
        (omega (arith, length-replicate {A = ℕ} 1024 7), tt),
      )
