-- ===== src/Route/Exec/Idle/Tests.antt =====
-- Tests of the idle time in route/exec.go.
use container_web_tty.Base.{◌+◌, ◌≤◌, ◌<◌, ◌≡◌, refl, ◌⊎◌, true, none, some, [], ◌∷◌, arith}
use container_web_tty.Route.Exec.{idle_watch}
use container_web_tty.Route.Exec.Idle.{idle_run, idle_events, last_before, idle_cancels}

-- Two signals in time, and a third one too late: the terminal is cancelled at 110.
cancelled_at : idle_run 60 0 (20 ∷ 50 ∷ 200 ∷ []) none ≡ some 110
unfolding idle_run
cancelled_at = refl

idle_cancels_example :
    (idle_watch (idle_events 60 0 (20 ∷ 50 ∷ 200 ∷ []) none) ≡ true)
    × ((110 ≡ last_before 110 0 (20 ∷ 50 ∷ 200 ∷ []) + 60)
        × ((110 ≤ 100) ⊎ (100 < last_before 100 0 (20 ∷ 50 ∷ 200 ∷ []) + 60)))
unfolding idle_run
idle_cancels_example =
    idle_cancels 60 (omega arith) 0 (20 ∷ 50 ∷ 200 ∷ []) none 100
      (omega arith, (omega arith, (omega arith, tt)))

-- The channel is closed in time.
idle_closed : idle_run 60 0 (20 ∷ []) (some 70) ≡ none
unfolding idle_run
idle_closed = refl
