-- ===== src/Kube/Exit/Tests.antt =====
-- Tests of `Exit` in container/kube/tty.go.
use container_web_tty.Base.{◌<◌, refl, ◌≢◌, true}
use container_web_tty.Kube.Exit.{
  Terminal, opened, returned, uncalled, writes_interrupt, closing, Step, ends, Reach, here, calls,
  next,
}
use container_web_tty.Kube.Exit.Ends.{left, exit_ends}

-- The command has ended before `Exit` writes.
abbrev ended : Terminal
ended = record { stream = returned; stage = writes_interrupt; in_open = true }

ended-Reach : Reach opened ended
ended-Reach = next (calls here refl) (ends refl)

exit_ends_example :
    (ended.stage ≢ uncalled → ended.stage ≢ closing 0 → (u : Terminal) × Step ended u)
    × ((u : Terminal) → Step ended u → left u < left ended)
exit_ends_example = exit_ends ended ended-Reach
