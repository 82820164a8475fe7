-- ===== src/Route/Run/Progress.antt =====
-- route/route.go: once the graceful context is done, `Run` waits for nothing but the open connections.
use container_web_tty.Base.{
  ◌==◌, if◌then◌else◌, Bool-cases, Bytes, ℕ, ◌+◌, ◌≤◌, ◌<◌, ◌≡◌, refl, ◌⊎◌, inl, inr, Bool, true,
  false, Option, none, some, arith,
}
use container_web_tty.Base.Int.{ℤ}
use container_web_tty.Route.Counter.{Counter, may_return}
use container_web_tty.Route.Run.{
  ServeError, server_closed, failed, RunError, Phase, serving, waiting, returned, fatal, is_running,
  is_alive, Running, start, Outside, accepts, listen_fails, stops_gracefully, cancels, Handlers,
  request_ends, connects, disconnects, Inside, shuts, shutdown_fails, takes_closed, takes_failure,
  takes_cancel, returns, Reach,
}
use container_web_tty.Route.Run.Invariant.{serving-served, Inv, Reach-Inv, start-Inv}

abbrev phase_left : Phase → ℕ
phase_left serving = 3
phase_left (waiting e) = 2
phase_left (returned e) = 1
phase_left fatal = 0

-- A bound on the steps that are left to `Run`.
abbrev pub left : Running → ℕ
left s = (if s.listening then 1 else 0) + phase_left s.phase

alive_left : (p : Phase) → is_alive p ≡ true → 0 < phase_left p
alive_left serving r = omega arith
alive_left (waiting e) r = omega arith
alive_left (returned e) r = omega arith
alive_left fatal r = cc

left_most : (l : Bool) (p : Phase) → (if l then 1 else 0) + phase_left p ≤ 4
left_most true serving = omega arith
left_most true (waiting e) = omega arith
left_most true (returned e) = omega arith
left_most true fatal = omega arith
left_most false serving = omega arith
left_most false (waiting e) = omega arith
left_most false (returned e) = omega arith
left_most false fatal = omega arith

-- Every step of `Run` takes away from what is left.
left-Inside : {s t : Running} → Inside s t → left t < left s
left-Inside {s} (shuts r g l) = rw l (omega arith)
left-Inside {s} (shutdown_fails r g l) = omega (arith, alive_left s.phase r)
left-Inside {s} (takes_closed p e) = rw p (omega arith)
left-Inside {s} (takes_failure x p e) = rw p (omega arith)
left-Inside {s} (takes_cancel p c) = ground arith
left-Inside {s} (returns e p m) = rw p (omega arith)

-- No other step gives anything back.
left-Outside : {s t : Running} → Outside s t → left t ≤ left s
left-Outside {s} (accepts r l) = omega arith
left-Outside {s} (listen_fails e r l) = rw l (omega arith)
left-Outside {s} (stops_gracefully r) = omega arith
left-Outside {s} (cancels r) = omega arith

left-Handlers : {s t : Running} → Handlers s t → left t ≤ left s
left-Handlers {s} (request_ends k r l) = omega arith
left-Handlers {s} (connects k r l) = omega arith
left-Handlers {s} (disconnects c n r e) = omega arith

-- A step of `Run` by which it does not end the process.
abbrev pub Goes : Running → Type 0
Goes s = (t : Running) × Inside s t × (is_alive t.phase ≡ true)

-- `Run` waits for its connections.
abbrev pub Waits : Running → Type 0
Waits s = (e : Option RunError) × (s.phase ≡ waiting e) × (0 < s.counter.connections)

serve_error_cases :
    (o : Option ServeError)
    → (o ≡ none) ⊎ (o ≡ some server_closed) ⊎ ((e : Bytes) × (o ≡ some (failed e)))
serve_error_cases none = inl refl
serve_error_cases (some server_closed) = inr (inl refl)
serve_error_cases (some (failed e)) = inr (inr (e, refl))

quiet_returns : (c : Counter) → c.wg ≡ c.connections → c.connections ≡ 0 → may_return c ≡ true
unfolding may_return
quiet_returns c h n = ground arith

-- In the `select`, with no listener, the error that is there is taken.
select-Goes : (s : Running) → Inv s → s.phase ≡ serving → s.listening ≡ false → Goes s
select-Goes s v e l = elim (serve_error_cases s.served) [
  | inl missing ↦ absurd (serving-served s v e l missing)
  | inr (inl closed) ↦ (_, takes_closed e closed, refl)
  | inr (inr (x, broken)) ↦ (_, takes_failure x e broken, refl)
]

running-Goes :
    (s : Running)
    → Inv s
    → s.graceful ≡ true
    → (p : Phase) → s.phase ≡ p
    → is_running p ≡ true
    → Goes s ⊎ Waits s
running-Goes s v g serving e r = elim (Bool-cases s.listening) [
  | inl l ↦ inl (_, shuts (rw e refl) g l, rw e refl)
  | inr l ↦ inl (select-Goes s v e l)
]
running-Goes s v g (waiting x) e r = elim (Bool-cases (s.counter.connections == 0)) [
  | inl none_open ↦ inl (_, returns x e (quiet_returns s.counter v.counted (ground arith)), refl)
  | inr busy ↦ inr (x, e, ground arith)
]
running-Goes s v g (returned x) e r = cc
running-Goes s v g fatal e r = cc

-- Once the graceful context is done, `Run` waits for nothing but its open connections: while it has
-- not returned, it can make a step that does not end the process, or it waits with a connection
-- open. It makes at most four steps of its own, whatever the clients and the handlers do: each
-- takes away from a number that is at most four and that none of theirs adds to.
pub run_ends :
    (d : ℤ) (s : Running)
    → Reach (start d) s
    → s.graceful ≡ true
    → (is_running s.phase ≡ true → Goes s ⊎ Waits s)
      × (left s ≤ 4)
      × ((t : Running) → Inside s t → left t < left s)
      × ((t : Running) → Outside s t → left t ≤ left s)
      × ((t : Running) → Handlers s t → left t ≤ left s)
run_ends d s r g = (
  running-Goes s (Reach-Inv (start-Inv d) r) g s.phase refl,
  left_most s.listening s.phase,
  (λ t i. left-Inside i),
  (λ t o. left-Outside o),
  λ t h. left-Handlers h,
)
