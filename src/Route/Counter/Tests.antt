-- ===== src/Route/Counter/Tests.antt =====
-- Tests of route/handler_atomic.go.
use container_web_tty.Base.{List, [], ◌∷◌}
use container_web_tty.Base.Int.{pos}
use container_web_tty.Route.Counter.{new_counter}
use container_web_tty.Route.Counter.Balance.{
  Call, adds, dones, run, open_after, Agrees, counter_balanced,
}

abbrev calls : List Call
calls = adds ∷ adds ∷ dones ∷ []

counter_balanced_example : Agrees (pos 60) (run calls (new_counter (pos 60))) (open_after calls 0)
counter_balanced_example = counter_balanced (pos 60) calls
