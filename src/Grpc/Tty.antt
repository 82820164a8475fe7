-- ===== src/Grpc/Tty.antt =====
-- container/grpc/grpc_tty.go: the terminal of a container that another instance serves, over its
-- exec stream. `send i` is the error of the i-th call of `Send` on the stream.
mod Calls
mod Output
mod Tests
use container_web_tty.Base.{
  ltb, if◌then◌else◌, length, take, drop, Bytes, ℕ, zero, suc, ◌+◌, ◌-◌, ◌%◌, ◌^◌, ◌⊎◌, inl, inr,
  Bool, true, false, Option, none, some, List, [], ◌∷◌, ◌++◌,
}
use container_web_tty.Base.Int.{ℤ, pos, negsuc}
use container_web_tty.Proxy.Messages.{ExecMessage}

-- Go's conversion of an `int` to an `int32`.
abbrev signed : ℕ → ℤ
signed u = if ltb u (2 ^ 31) then pos u else negsuc (2 ^ 32 - 1 - u)

unfoldable pub int32 : ℤ → ℤ
int32 (pos n) = signed (n % 2 ^ 32)
int32 (negsuc n) = signed (2 ^ 32 - 1 - n % 2 ^ 32)

abbrev pub blank_message : ExecMessage
blank_message = record { cmd = none; c = none; auth = []; ws = none }

-- `&pb.ExecOptions{Cmd: &pb.Io{In: p}}`
abbrev pub input_message : Bytes → ExecMessage
input_message p = record blank_message { cmd = some (record { input = p; output = [] }) }

-- The message of `resize`.
unfoldable pub size_message : ℤ → ℤ → ExecMessage
unfolding int32
size_message width height = record blank_message {
  ws = some (record { height = int32 height; width = int32 width });
}

-- The stream: the number of sends so far, the messages that it took, and whether `CloseSend` was
-- called; and whether the channel of the signals is closed.
pub record Stream : Type 0 where
  pub sends : ℕ
  pub sent : List ExecMessage
  pub closed : Bool
  pub signals_closed : Bool

abbrev pub new_stream : Stream
new_stream = record { sends = 0; sent = []; closed = false; signals_closed = false }

module _ (send : ℕ → Option Bytes) where
  unfoldable pub send_message : ExecMessage → Stream → Option Bytes × Stream
  send_message m s = elim (send s.sends) [
    | none ↦ (none, record s { sends = s.sends + 1; sent = s.sent ++ m ∷ [] })
    | some e ↦ (some e, record s { sends = s.sends + 1 })
  ]

  -- `Write`: the length of the input is returned with an error as well.
  unfoldable pub write : Bytes → Stream → (ℕ × Option Bytes) × Stream
  unfolding send_message
  write p s = let (err, s') = send_message (input_message p) s in ((length p, err), s')

  unfoldable pub resize : ℤ → ℤ → Stream → Option Bytes × Stream
  unfolding send_message
  resize width height s = send_message (size_message width height) s

  -- The loop of `ResizeTerminal` with what is left of its rounds and the error of the last one.
  unfoldable pub resize_rounds : ℕ → ℤ → ℤ → Option Bytes → Stream → Option Bytes × Stream
  unfolding resize
  resize_rounds zero width height err s = (err, s)
  resize_rounds (suc left) width height err s =
      let (err', s') = resize width height s in
      let others = resize_rounds left width height err' s' in
      elim err' [ none ↦ (none, s') | some e ↦ others ]

  unfoldable pub resize_terminal : ℤ → ℤ → Stream → Option Bytes × Stream
  unfolding resize_rounds
  resize_terminal width height s = resize_rounds 3 width height none s

  -- `Exit`, with the error of `CloseSend`. The errors of the two writes are dropped. Its callers call
  -- it once; a second close of the channel is a step of Terminal.
  unfoldable pub exit : Option Bytes → Stream → Option Bytes × Stream
  unfolding write
  exit close_send s =
      let s' = (write (3 ∷ []) s).1 in
      let s'' = (write (4 ∷ []) s').1 in
      (close_send, record s'' { closed = true; signals_closed = true })

-- `Read` into a buffer, with what `Recv` gives, the output or an error: the buffer behind it, the
-- count and the error. The count is the length of the output also where the buffer is shorter.
unfoldable pub read : Bytes → Bytes ⊎ Bytes → (ℕ × Option Bytes) × Bytes
read p (inl out) = ((length out, none), take (length p) out ++ drop (length out) p)
read p (inr err) = ((0, some err), p)
