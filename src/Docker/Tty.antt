-- ===== src/Docker/Tty.antt =====
-- container/docker/slave.go: the terminal of a Docker container, over the hijacked connection. `conn i p`
-- is what the i-th write of `p` to the connection returns. The retries of `ResizeTerminal` and the
-- signals of `Read` are in Terminal.
mod Session
mod Tests
use container_web_tty.Base.{take, Bytes, ℕ, ◌+◌, Bool, true, false, Option, List, [], ◌∷◌, ◌++◌}
use container_web_tty.Terminal.{docker_exit}

-- The connection: the number of writes so far, the bytes that it took, and whether it is closed;
-- and whether the channel of the signals is.
pub record Connection : Type 0 where
  pub writes : ℕ
  pub taken : Bytes
  pub closed : Bool
  pub signals_closed : Bool

abbrev pub new_connection : Connection
new_connection = record { writes = 0; taken = []; closed = false; signals_closed = false }

module _ (conn : ℕ → Bytes → ℕ × Option Bytes) where
  unfoldable pub write : Bytes → Connection → (ℕ × Option Bytes) × Connection
  write p c =
      let (n, e) = conn c.writes p in
      ((n, e), record c { writes = c.writes + 1; taken = c.taken ++ take n p })

  -- The bytes of `Exit`, in one write; its error is dropped.
  unfoldable pub write_all : List Bytes → Connection → Connection
  unfolding write
  write_all [] c = c
  write_all (p ∷ ps) c = write_all ps (write p c).1

  -- `Exit`, with the error of the connection's `Close`. Its callers call it once; a second close of
  -- the channel is a step of Terminal.
  unfoldable pub exit : Option Bytes → Connection → Option Bytes × Connection
  unfolding write_all docker_exit
  exit close c = (close, record (write_all docker_exit c) { closed = true; signals_closed = true })
