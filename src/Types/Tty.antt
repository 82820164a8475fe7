-- ===== src/Types/Tty.antt =====
-- types/tty.go: the master's terminal, the terminals forked from it, and the rule for who may
-- write. Times are nanoseconds since Go's zero time, and a call gets the time of its clock. The
-- container's terminal (`TTY`) and the pubsub package are parameters: `tty p` is what
-- `TTY.Write(p)` returns, and what a fork receives is an argument of its `Read`.
mod Turns
pub mod Viewing
pub mod History
mod Tests
use container_web_tty.Base.{
  ltb, leb, ◌==◌, if◌then◌else◌, length, take, drop, replicate, is_empty, Bytes, ℕ, ◌-◌, ◌^◌, min,
  Bool, true, false, not, Option, none, some, List, [], ◌∷◌, ◌++◌,
}

-- What `Write` returns: the number of bytes, and an error.
abbrev pub Wrote : Type 0
Wrote = ℕ × Option Bytes

-- The pointer to a `SlaveTTY` is a number.
pub record MutexWriter : Type 0 where
  pub last_master_write_time : ℕ
  pub last_slave_write_time : ℕ
  pub last_wrote_slave : Option ℕ

-- `&mutexWriter{}`
abbrev pub new_writer : MutexWriter
new_writer = record {
  last_master_write_time = 0;
  last_slave_write_time = 0;
  last_wrote_slave = none;
}

-- time.Second, and the largest `time.Duration`.
abbrev pub wait_duration : ℕ
wait_duration = 1000000000

abbrev pub max_duration : ℕ
max_duration = 2 ^ 63 - 1

-- time.Since on a monotonic clock: it saturates.
unfoldable pub since : ℕ → ℕ → ℕ
since now t = min (now - t) max_duration

unfoldable pub master_can_write : ℕ → MutexWriter → Bool
unfolding since
master_can_write now w = ltb wait_duration (since now w.last_slave_write_time)

unfoldable pub slave_can_write : ℕ → ℕ → MutexWriter → Bool
unfolding since
slave_can_write now slave w =
    if ltb (since now w.last_master_write_time) wait_duration
    then false
    else elim w.last_wrote_slave [
      | none ↦ true
      | some last ↦
          if last == slave then true else ltb wait_duration (since now w.last_slave_write_time)
    ]

-- What the terminals of one session share: the writer, and the calls of `TTY.Write`, oldest first.
pub record Session : Type 0 where
  pub writer : MutexWriter
  pub sent : List Bytes

pub record SlaveTty : Type 0 where
  pub id : ℕ
  pub read_only : Bool
  pub master_outputs : Bytes

module _ (tty : Bytes → Wrote) where
  -- `(*MasterTTY).Write`
  unfoldable pub master_write : ℕ → Bytes → Session → Session × Wrote
  master_write now p s =
      if master_can_write now s.writer
      then (
        record s {
          writer = record (s.writer) { last_master_write_time = now };
          sent = s.sent ++ p ∷ [];
        },
        tty p,
      )
      else (s, (0, none))

  -- `(*SlaveTTY).Write`
  unfoldable pub slave_write : ℕ → SlaveTty → Bytes → Session → Session × Wrote
  slave_write now slave p s =
      if slave.read_only
      then (s, (length p, none))
      else if slave_can_write now slave.id s.writer
      then (
        record s {
          writer = record (s.writer) {
            last_slave_write_time = now;
            last_wrote_slave = some slave.id;
          };
          sent = s.sent ++ p ∷ [];
        },
        tty p,
      )
      else (s, (0, none))

-- What `Read` leaves: the caller's buffer, the number of bytes, and the terminal. Go panics where
-- a slice of the buffer would be longer than its capacity, which is the length of the buffer.
pub data ReadResult : Type 0 where
  panics : ReadResult
  reads : Bytes → ℕ → SlaveTty → ReadResult

-- `(*SlaveTTY).Read(p)`, where the subscription's next message is `message`.
unfoldable pub slave_read : Bytes → Bytes → SlaveTty → ReadResult
slave_read p message s =
    if not (is_empty s.master_outputs)
    then if leb (length s.master_outputs) (length p)
      then reads (s.master_outputs ++ drop (length s.master_outputs) p) (length p)
          (record s { master_outputs = [] })
      else panics
    else if leb (length message) (length p)
    then reads (message ++ drop (length message) p) (length message) s
    else panics

-- `1e3`, the bytes of output that a master keeps.
unfoldable pub max_outputs : ℕ
max_outputs = 1000

-- The `outputs` of `NewMasterTTY`: that many zero bytes.
unfoldable pub new_outputs : Bytes
new_outputs = replicate max_outputs 0

-- One round of the goroutine in `NewMasterTTY`.
unfoldable pub absorb : Bytes → Bytes → Bytes
absorb outputs output =
    let all = outputs ++ output in
    if ltb max_outputs (length all) then drop (length all - max_outputs) all else all

-- The goroutine's loop, over what it receives.
unfoldable pub absorb_all : Bytes → List Bytes → Bytes
absorb_all outputs [] = outputs
absorb_all outputs (o ∷ os) = absorb_all (absorb outputs o) os

-- `(*MasterTTY).Read(p)`: what the container's terminal put into the buffer, and how much of it,
-- goes to the caller, and the same bytes are published.
unfoldable pub master_read : Bytes → ℕ → Option Bytes → Bytes × ℕ × Option Bytes
master_read p n err = (take n p, n, err)

-- `Fork` of a master with these outputs.
unfoldable pub fork : ℕ → Bool → Bytes → SlaveTty
fork id collaborate outputs = record {
  id = id;
  read_only = not collaborate;
  master_outputs = outputs;
}
