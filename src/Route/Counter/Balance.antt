-- ===== src/Route/Counter/Balance.antt =====
-- route/handler_atomic.go: the counter over any sequence of its calls.
use container_web_tty.Base.{
  ◌==◌, if◌then◌else◌, Bool-cases, ℕ, ◌+◌, ◌-◌, ◌≡◌, refl, subst, ◌≢◌, inl, inr, true, false, ◌&&◌,
  Option, none, some, List, [], ◌∷◌, arith,
}
use container_web_tty.Base.Int.{ℤ, is_pos}
use container_web_tty.Route.Counter.{Counter, runs, idle, new_counter, add, done}

pub data Call : Type 0 where
  adds : Call
  dones : Call

-- The counter after the calls, `none` if one panics.
pub run : List Call → Counter → Option Counter
run [] c = some c
run (adds ∷ cs) c = run cs (add 1 c).0
run (dones ∷ cs) c = elim (done c) [ none ↦ none | some r ↦ run cs r.0 ]

-- The connections that are open after the calls, from `n`; `none` if one closes that is not there.
pub open_after : List Call → ℕ → Option ℕ
open_after [] n = some n
open_after (adds ∷ cs) n = open_after cs (n + 1)
open_after (dones ∷ cs) n = elim (n == 0) [ true ↦ none | false ↦ open_after cs (n - 1) ]

-- The wait group counts the connections, and with an idle time the timer runs while there are none.
pub record IsBalanced (c : Counter) : Type 0 where
  pub counted : c.wg ≡ c.connections
  pub timed : is_pos c.duration ≡ true → c.timer ≡ (if c.connections == 0 then runs else idle)

add-IsBalanced : (c : Counter) → IsBalanced c → IsBalanced (add 1 c).0
unfolding add
add-IsBalanced c b = ground arith

-- The result of a call sequence, against the number of connections.
abbrev pub Agrees : ℤ → Option Counter → Option ℕ → Type 0
Agrees d none none = Unit {0}
Agrees d none (some n) = ⊥
Agrees d (some c) none = ⊥
Agrees d (some c) (some n) = IsBalanced c × (c.connections ≡ n) × (c.duration ≡ d)

abbrev pub closing : Counter → Counter
closing c = record c {
  timer = if (c.connections - 1 == 0) && is_pos c.duration then runs else c.timer;
  wg = c.wg - 1;
  connections = c.connections - 1;
}

pub done-closing : (c : Counter) → c.wg ≢ 0 → done c ≡ some (closing c, c.connections - 1)
unfolding done
done-closing c h = let more : (c.wg == 0) ≡ false = ground arith in rw more

closing-IsBalanced : (c : Counter) → c.wg ≢ 0 → IsBalanced c → IsBalanced (closing c)
closing-IsBalanced c h b = ground arith

run-Agrees :
    (cs : List Call) (c : Counter) (n : ℕ)
    → IsBalanced c
    → c.connections ≡ n
    → Agrees c.duration (run cs c) (open_after cs n)
unfolding run open_after
run-Agrees [] c n b e = (b, e, refl)
run-Agrees (adds ∷ cs) c n b e =
    let more : (add 1 c).0.connections ≡ n + 1 = unfold add in (ground arith) in
    let same : (add 1 c).0.duration ≡ c.duration = unfold add in refl in
    subst (λ d. Agrees d (run cs (add 1 c).0) (open_after cs (n + 1))) same
      (run-Agrees cs (add 1 c).0 (n + 1) (add-IsBalanced c b) more)
run-Agrees (dones ∷ cs) c n b e = elim (Bool-cases (n == 0)) [
  | inl closed ↦
      let panic : done c ≡ none = unfold done in (ground arith) in
      rw (closed, panic, run, open_after) tt
  | inr open_one ↦
      let busy : c.wg ≢ 0 = ground arith in
      rw (open_one, done-closing c busy, run, open_after)
        (run-Agrees cs (closing c) (n - 1) (closing-IsBalanced c busy b) (ground arith))
]

new_counter-IsBalanced : (d : ℤ) → IsBalanced (new_counter d)
unfolding new_counter
new_counter-IsBalanced d = ground arith

-- Over any sequence of `add(1)` and `done()`, the counter panics exactly when a connection closes that
-- is not open. Otherwise it counts the open connections, the wait group holds the same number, and
-- with a positive idle time the timer runs exactly while no connection is open.
pub counter_balanced :
    (d : ℤ) (cs : List Call) → Agrees d (run cs (new_counter d)) (open_after cs 0)
counter_balanced d cs =
    let none_open : (new_counter d).connections ≡ 0 = unfold new_counter in refl in
    let same : (new_counter d).duration ≡ d = unfold new_counter in refl in
    subst (λ x. Agrees x (run cs (new_counter d)) (open_after cs 0)) same
      (run-Agrees cs (new_counter d) 0 (new_counter-IsBalanced d) none_open)
