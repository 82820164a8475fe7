-- ===== src/Terminal.antt =====
-- container/docker/slave.go, container/grpc/grpc_tty.go and container/kube/tty.go: the terminals of
-- the backends, of one shape: a reader that signals activity, an end, and a resize with retries.
mod Activity
mod Resize
mod Tests
use container_web_tty.Base.{
  Bytes, ℕ, zero, suc, ◌+◌, ◌<◌, ◌≡◌, Bool, true, false, Option, none, some, List, [], ◌∷◌,
}

-- `for i := 0; i < 3; i++`, from `i`, with what is left of the rounds and the error of the last one:
-- the error that is returned, and how often the size was sent.
unfoldable pub retry : ℕ → ℕ → (ℕ → Option Bytes) → Option Bytes → Option Bytes × ℕ
retry zero i resize err = (err, i)
retry (suc left) i resize err =
    let others = retry left (i + 1) resize (resize i) in
    elim (resize i) [ none ↦ (none, i + 1) | some e ↦ others ]

-- `ResizeTerminal` of the Docker and the gRPC terminal, where `resize i` is the error of round `i`.
unfoldable pub resize_terminal : (ℕ → Option Bytes) → Option Bytes × ℕ
unfolding retry
resize_terminal resize = retry 3 0 resize none

-- The bytes that `Exit` writes before it closes the connection: ^C and ^D, on Docker each with an
-- enter, on the others in two writes.
unfoldable pub docker_exit : List Bytes
docker_exit = (3 ∷ 13 ∷ 4 ∷ 13 ∷ []) ∷ []

unfoldable pub stream_exit : List Bytes
stream_exit = (3 ∷ []) ∷ (4 ∷ []) ∷ []

-- `activeChan` of capacity 5 with the goroutines of `Read` that have found it empty and have not
-- sent yet.
pub record Channel : Type 0 where
  pub queued : ℕ
  pub senders : ℕ
  pub closed : Bool
  pub crashed : Bool

abbrev pub new_channel : Channel
new_channel = record { queued = 0; senders = 0; closed = false; crashed = false }

pub data Step (c : Channel) : Channel → Type 0 where
  -- The goroutine of a `Read` finds the channel empty.
  looks : c.queued ≡ 0 → Step c (record c { senders = c.senders + 1 })
  -- It sends, where there is room.
  sends :
      (k : ℕ)
      → c.senders ≡ suc k
      → c.closed ≡ false
      → c.queued < 5
      → Step c (record c { queued = c.queued + 1; senders = k })
  -- The idle watch receives.
  receives : (k : ℕ) → c.queued ≡ suc k → Step c (record c { queued = k })
  -- `Exit` closes the channel.
  exits : c.closed ≡ false → Step c (record c { closed = true })
  -- A send on a closed channel, and its second close, end the program.
  sends_closed :
      (k : ℕ) → c.senders ≡ suc k → c.closed ≡ true → Step c (record c { crashed = true })
  exits_again : c.closed ≡ true → Step c (record c { crashed = true })

pub data Reach (c : Channel) : Channel → Type 0 where
  here : Reach c c
  next : {d e : Channel} → Reach c d → Step d e → Reach c e
