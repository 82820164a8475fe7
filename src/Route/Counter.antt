-- ===== src/Route/Counter.antt =====
-- route/handler_atomic.go: the counter of open connections. Each method holds the mutex for its
-- whole body, so it is one step. `wg` is the counter of the wait group, and `timer` tells whether
-- `zeroTimer` runs.
pub mod Balance
mod Tests
use container_web_tty.Base.{◌==◌, if◌then◌else◌, ℕ, ◌+◌, ◌-◌, Bool, ◌&&◌, Option, none, some}
use container_web_tty.Base.Int.{ℤ, is_pos, is_zero}

pub data Timer : Type 0 where
  runs : Timer
  idle : Timer

pub record Counter : Type 0 where
  pub duration : ℤ
  pub timer : Timer
  pub wg : ℕ
  pub connections : ℕ

-- With a duration of 0 the event is drained.
unfoldable pub new_counter : ℤ → Counter
new_counter duration = record {
  duration = duration;
  timer = if is_zero duration then idle else runs;
  wg = 0;
  connections = 0;
}

unfoldable pub add : ℕ → Counter → Counter × ℕ
add n c =
    let timer' = if is_pos c.duration then idle else c.timer in
    (record c { timer = timer'; wg = c.wg + n; connections = c.connections + n }, c.connections + n)

-- `none` is the panic of a wait group that falls below zero.
unfoldable pub done : Counter → Option (Counter × ℕ)
done c =
    if c.wg == 0
    then none
    else some (
      record c {
        timer = if (c.connections - 1 == 0) && is_pos c.duration then runs else c.timer;
        wg = c.wg - 1;
        connections = c.connections - 1;
      },
      c.connections - 1,
    )

unfoldable pub count : Counter → ℕ
count c = c.connections

-- `wait` returns only at a wait group of 0.
unfoldable pub may_return : Counter → Bool
may_return c = c.wg == 0
