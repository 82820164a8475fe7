-- ===== src/Route/Run/Ends.antt =====
-- route/route.go: in which states `Run` returns.
use container_web_tty.Base.{◌+◌, ◌≤◌, ◌≡◌, true, false, Option, none, some}
use container_web_tty.Base.Int.{ℤ}
use container_web_tty.Route.Run.{RunError, context_canceled, returned, Running, start, Reach}

-- The state in which `Run` returned, for a later state `s`.
pub record AtReturn (d : ℤ) (e : Option RunError) (s t : Running) : Type 0 where
  pub reached : Reach (start d) t
  pub later : Reach t s
  pub returned_then : t.phase ≡ returned e
  pub quiet : t.counter.connections ≡ 0
  pub closed : t.listening ≡ false
  pub gracefully : e ≡ none → t.graceful ≡ true
  pub on_cancel : e ≡ some context_canceled → t.cancelled ≡ true
  pub closed_now : s.listening ≡ false
  pub in_flight : s.counter.connections + s.requests ≤ t.requests
