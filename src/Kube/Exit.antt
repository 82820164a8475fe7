-- ===== src/Kube/Exit.antt =====
-- container/kube/tty.go: `Exit`, beside the goroutine of `Exec` in container/kube/kubectl.go, with the
-- pipe between them. A write into a pipe waits until it is read or one of its ends is closed. A
-- running stream of the API server reads what is written.
mod Ends
mod Tests
use container_web_tty.Base.{ltb, ℕ, suc, ◌≡◌, Bool, true, false, ◌&&◌}

-- The goroutine of `Exec`: `Stream` runs, has returned, or the first or both of its pipes are closed.
pub data Stream : Type 0 where
  running returned in_closed out_closed : Stream

-- `Exit`: not called, in its writes of ^C and ^D, or before so many of its closes.
pub data Stage : Type 0 where
  uncalled writes_interrupt writes_end : Stage
  closing : ℕ → Stage

-- `in_open` tells whether the pipe of the input is open at both ends.
pub record Terminal : Type 0 where
  pub stream : Stream
  pub stage : Stage
  pub in_open : Bool

abbrev pub opened : Terminal
opened = record { stream = running; stage = uncalled; in_open = true }

-- After a write.
abbrev pub next_stage : Stage → Stage
next_stage uncalled = uncalled
next_stage writes_interrupt = writes_end
next_stage writes_end = closing 6
next_stage (closing k) = closing k

abbrev pub is_writing : Stage → Bool
is_writing uncalled = false
is_writing writes_interrupt = true
is_writing writes_end = true
is_writing (closing k) = false

pub data Step (t : Terminal) : Terminal → Type 0 where
  -- The stream reads the byte.
  is_read :
      is_writing t.stage ≡ true
      → t.stream ≡ running
      → t.in_open ≡ true
      → Step t (record t { stage = next_stage t.stage })
  -- The write fails, and `Exit` drops its error.
  is_refused :
      is_writing t.stage ≡ true
      → t.in_open ≡ false
      → Step t (record t { stage = next_stage t.stage })
  -- The closes of `r`, `w`, `ttyIn`, `ttyOut`, the sizes and the activity channel, in this order.
  closes :
      (k : ℕ)
      → t.stage ≡ closing (suc k)
      → Step t (record t { stage = closing k; in_open = t.in_open && ltb 4 k })
  -- The goroutine after `Stream`.
  closes_in : t.stream ≡ returned → Step t (record t { stream = in_closed; in_open = false })
  closes_out : t.stream ≡ in_closed → Step t (record t { stream = out_closed })
  -- The command ends, or the connection.
  ends : t.stream ≡ running → Step t (record t { stream = returned })

pub data Reach (t : Terminal) : Terminal → Type 0 where
  here : Reach t t
  calls :
      {u : Terminal}
      → Reach t u
      → u.stage ≡ uncalled
      → Reach t (record u { stage = writes_interrupt })
  next : {u v : Terminal} → Reach t u → Step u v → Reach t v
