-- ===== src/Route/Run/Tests.antt =====
-- Tests of `Run` in route/route.go.
use container_web_tty.Base.{◌≤◌, ◌<◌, ◌≡◌, refl, ◌⊎◌, true, false, none}
use container_web_tty.Base.Int.{pos}
use container_web_tty.Route.Counter.{Counter, runs, idle, add, new_counter}
use container_web_tty.Route.Run.{
  Running, start, waiting, returned, is_running, accepts, stops_gracefully, connects, shuts,
  takes_closed, Inside, Outside, Handlers, Reach, here, outside, handled, inside,
}
use container_web_tty.Route.Run.Progress.{left, Goes, Waits, run_ends}

abbrev idle_counter : Counter
idle_counter = record { duration = pos 60; timer = runs; wg = 0; connections = 0 }

-- A terminal is open while the server shuts down.
abbrev shutting : Running
shutting = record {
  phase = waiting none;
  listening = false;
  served = none;
  graceful = true;
  cancelled = false;
  requests = 0;
  counter = record { duration = pos 60; timer = idle; wg = 1; connections = 1 };
}

shutting-Reach : Reach (start (pos 60)) shutting
unfolding new_counter add
shutting-Reach =
    inside
      (inside
        (outside (handled (outside here (accepts refl refl)) (connects 0 refl refl))
          (stops_gracefully refl))
        (shuts refl refl refl))
      (takes_closed refl refl)

abbrev ended : Running
ended = record shutting { phase = returned none; counter = idle_counter }

run_ends_example :
    (is_running shutting.phase ≡ true → Goes shutting ⊎ Waits shutting)
    × (left shutting ≤ 4)
    × ((t : Running) → Inside shutting t → left t < left shutting)
    × ((t : Running) → Outside shutting t → left t ≤ left shutting)
    × ((t : Running) → Handlers shutting t → left t ≤ left shutting)
run_ends_example = run_ends (pos 60) shutting shutting-Reach refl
