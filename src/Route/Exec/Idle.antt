-- ===== src/Route/Exec/Idle.antt =====
-- route/exec.go: the goroutine of `processTTY` for the idle time, with the times at which it receives.
mod Tests
use container_web_tty.Base.{
  ltb, if◌then◌else◌, Bool-cases, ℕ, ◌+◌, ◌≤◌, ◌<◌, ◌≡◌, refl, ◌⊎◌, inl, inr, Bool, true, false,
  Option, none, some, List, [], ◌∷◌, arith,
}
use container_web_tty.Route.Exec.{IdleEvent, timer_fires, active, closed, idle_watch}

module _ (tout : ℕ) where
  -- From the time `from` at which the timer was set: the times of the signals of activity still to
  -- come, and the time at which the channel is closed behind them, if it is. The result is the time
  -- at which the terminal is cancelled, or `none` where the goroutine returns before.
  unfoldable pub idle_run : ℕ → List ℕ → Option ℕ → Option ℕ
  idle_run from [] none = some (from + tout)
  idle_run from [] (some c) = if ltb c (from + tout) then none else some (from + tout)
  idle_run from (t ∷ ts) closes =
      let rest = idle_run t ts closes in if ltb t (from + tout) then rest else some (from + tout)

  -- What the goroutine meets, in its order.
  unfoldable pub idle_events : ℕ → List ℕ → Option ℕ → List IdleEvent
  idle_events from [] none = timer_fires ∷ []
  idle_events from [] (some c) = if ltb c (from + tout) then closed ∷ [] else timer_fires ∷ []
  idle_events from (t ∷ ts) closes =
      let rest = idle_events t ts closes in
      if ltb t (from + tout) then active ∷ rest else timer_fires ∷ []

-- The last signal before a time, or the start; the signals come in order.
unfoldable pub last_before : ℕ → ℕ → List ℕ → ℕ
last_before now from [] = from
last_before now from (t ∷ ts) = let rest = last_before now t ts in if ltb t now then rest else from

abbrev pub is_some : Option ℕ → Bool
is_some (some t) = true
is_some none = false

-- The signals come in the order of their times.
abbrev pub InOrder : ℕ → List ℕ → Type 0
InOrder from [] = Unit
InOrder from (t ∷ ts) = (from ≤ t) × InOrder t ts

module _ (tout : ℕ) where
  -- At the time of the end of the watch the terminal has been idle for the time, and not before.
  abbrev pub EndsAt : ℕ → List ℕ → Option ℕ → Option ℕ → ℕ → Type 0
  EndsAt from ts closes (some end) now =
      (end ≡ last_before end from ts + tout)
      × ((end ≤ now) ⊎ (now < last_before now from ts + tout))
  EndsAt from ts closes none now =
      (c : ℕ) × (closes ≡ some c) × ((c < now) ⊎ (now < last_before now from ts + tout))

module _ (tout : ℕ) (positive : 0 < tout) where
  idle_run-watch :
      (from : ℕ) (ts : List ℕ) (closes : Option ℕ)
      → idle_watch (idle_events tout from ts closes) ≡ is_some (idle_run tout from ts closes)
  unfolding idle_watch idle_events idle_run
  idle_run-watch from [] none = refl
  idle_run-watch from [] (some c) = ground arith
  idle_run-watch from (t ∷ ts) closes = ground (arith, idle_run-watch t ts closes)

  later_end :
      (from : ℕ) (ts : List ℕ) (closes : Option ℕ) (end : ℕ)
      → InOrder from ts
      → idle_run tout from ts closes ≡ some end
      → from < end
  unfolding idle_run
  later_end from [] none end h e = ground arith
  later_end from [] (some c) end h e = ground arith
  later_end from (t ∷ ts) closes end (l, h) e = ground (arith, later_end t ts closes end h)

  -- A signal that comes in time moves the end on.
  extend :
      (from t : ℕ) (ts : List ℕ) (closes : Option ℕ) (now : ℕ) (result : Option ℕ)
      → from ≤ t
      → InOrder t ts
      → ltb t (from + tout) ≡ true
      → idle_run tout t ts closes ≡ result
      → EndsAt tout t ts closes result now
      → EndsAt tout from (t ∷ ts) closes result now
  unfolding last_before
  extend from t ts closes now (some end) l h before e (idle, busy) =
      let more = later_end t ts closes end h e in (ground arith, ground arith)
  extend from t ts closes now none l h before e (c, closed_at, busy) = (c, closed_at, ground arith)

  idle_run-EndsAt :
      (from : ℕ) (ts : List ℕ) (closes : Option ℕ) (now : ℕ)
      → InOrder from ts
      → EndsAt tout from ts closes (idle_run tout from ts closes) now
  unfolding idle_run last_before
  idle_run-EndsAt from [] none now h = (refl, ground arith)
  idle_run-EndsAt from [] (some c) now h = elim (Bool-cases (ltb c (from + tout))) [
    | inl before ↦ rw before (c, refl, ground arith)
    | inr after ↦ rw after (refl, ground arith)
  ]
  idle_run-EndsAt from (t ∷ ts) closes now (l, h) = elim (Bool-cases (ltb t (from + tout))) [
    | inl before ↦ rw before (
        extend from t ts closes now (idle_run tout t ts closes) l h before refl
          (idle_run-EndsAt t ts closes now h))
    | inr after ↦ rw after (ground arith)
  ]

  -- With a positive idle time and signals of activity that come in order, the goroutine cancels the
  -- terminal exactly if it does not first see the channel closed. It cancels it at the time at which
  -- the idle time has passed since the last signal before, and at no time before that, nor at any
  -- time up to the close of the channel, had the idle time passed since the last signal.
  pub idle_cancels :
      (from : ℕ) (ts : List ℕ) (closes : Option ℕ) (now : ℕ)
      → InOrder from ts
      → (idle_watch (idle_events tout from ts closes) ≡ is_some (idle_run tout from ts closes))
        × EndsAt tout from ts closes (idle_run tout from ts closes) now
  idle_cancels from ts closes now h =
      (idle_run-watch from ts closes, idle_run-EndsAt from ts closes now h)
