-- ===== src/Kube/Tty.antt =====
-- container/kube/tty.go: `newInjector` with its two pipes, and `Read` and `Write`, beside the stream
-- that reads `ttyIn` and writes `ttyOut`. A pipe of package io has no buffer: a write waits until it
-- is read, and the next write waits for it. The closes of `Exit` are in Kube/Exit, the queue of the
-- sizes in Kube/Sizes and the signals of `Read` in Terminal.
mod Flow
mod Tests
use container_web_tty.Base.{take, drop, Bytes, ℕ, ◌≡◌, Bool, true, false, [], ◌++◌}

-- A call of `io.Pipe` makes `first` or `second`.
pub data PipeId : Type 0 where
  first second : PipeId

-- Each end is the pipe it belongs to.
pub record ExecInjector : Type 0 where
  pub r : PipeId
  pub w : PipeId
  pub tty_in : PipeId
  pub tty_out : PipeId

unfoldable pub new_injector : ExecInjector
new_injector =
    let r = first in
    let out = first in
    let in_ = second in let w = second in record { r = r; w = w; tty_in = in_; tty_out = out }

-- The bytes of the last write that are not read yet, and whether both ends are open.
pub record Pipe : Type 0 where
  pub waiting : Bytes
  pub is_open : Bool

-- The two pipes, and what went in and came out at each place: the arguments of `Write`, the reads of
-- the stream, its writes, and what `Read` returned.
pub record Terminal : Type 0 where
  pub first_pipe : Pipe
  pub second_pipe : Pipe
  pub typed : Bytes
  pub received : Bytes
  pub printed : Bytes
  pub shown : Bytes

abbrev pub opened : Terminal
opened = record {
  first_pipe = record { waiting = []; is_open = true };
  second_pipe = record { waiting = []; is_open = true };
  typed = [];
  received = [];
  printed = [];
  shown = [];
}

unfoldable pub pipe : PipeId → Terminal → Pipe
pipe first t = t.first_pipe
pipe second t = t.second_pipe

unfoldable pub set_pipe : PipeId → Pipe → Terminal → Terminal
set_pipe first p t = record t { first_pipe = p }
set_pipe second p t = record t { second_pipe = p }

-- A write begins.
unfoldable pub put : PipeId → Bytes → Terminal → Terminal
unfolding pipe set_pipe
put i p t = set_pipe i (record (pipe i t) { waiting = p }) t

-- A read into a buffer of n bytes.
unfoldable pub pull : PipeId → ℕ → Terminal → Bytes × Terminal
unfolding pipe set_pipe
pull i n t =
    let q = pipe i t in (take n q.waiting, set_pipe i (record q { waiting = drop n q.waiting }) t)

-- A close of one of its ends ends the running write; what was not read is lost.
unfoldable pub close : PipeId → Terminal → Terminal
unfolding pipe set_pipe
close i t = set_pipe i (record (pipe i t) { is_open = false }) t

-- `enj` is the terminal's injector.
pub data Step (enj : ExecInjector) (t : Terminal) : Terminal → Type 0 where
  -- `Write`.
  writes :
      (p : Bytes)
      → (pipe enj.w t).is_open ≡ true
      → (pipe enj.w t).waiting ≡ []
      → Step enj t (let u = put enj.w p t in record u { typed = u.typed ++ p })
  -- The stream reads its input.
  takes :
      (n : ℕ)
      → (pipe enj.tty_in t).is_open ≡ true
      → Step enj t (let (p, u) = pull enj.tty_in n t in record u { received = u.received ++ p })
  -- The stream writes the output of the command.
  prints :
      (p : Bytes)
      → (pipe enj.tty_out t).is_open ≡ true
      → (pipe enj.tty_out t).waiting ≡ []
      → Step enj t (let u = put enj.tty_out p t in record u { printed = u.printed ++ p })
  -- `Read`.
  reads :
      (n : ℕ)
      → (pipe enj.r t).is_open ≡ true
      → Step enj t (let (p, u) = pull enj.r n t in record u { shown = u.shown ++ p })
  -- A close of an end, by `Exit` or by the goroutine of `Exec`.
  closes : (i : PipeId) → Step enj t (close i t)

pub data Reach (enj : ExecInjector) : Terminal → Type 0 where
  here : Reach enj opened
  next : {t u : Terminal} → Reach enj t → Step enj t u → Reach enj u
