-- ===== src/Route/Wrappers.antt =====
-- route/ws_wrapper.go: a websocket as a reader and a writer of text messages. What the connection
-- brings is a list of messages, behind which it is closed; `first` is the first read of a message's
-- reader into a buffer of the given size, and `write` is what the writer of a new message returns.
pub mod Inputs
mod Tests
use container_web_tty.Base.{take, Bytes, ℕ, zero, suc, Option, none, some, List, [], ◌∷◌}

pub data Message : Type 0 where
  text_message : Bytes → Message
  other_message : Bytes → Message

module _ (first : ℕ → Bytes → Bytes) where
  -- `wsWrapper.Read`: what is left of the messages, and the bytes, or `none` for the error of
  -- `NextReader`.
  unfoldable pub read : ℕ → List Message → List Message × Option Bytes
  read n [] = ([], none)
  read n (other_message b ∷ ms) = read n ms
  read n (text_message b ∷ ms) = (ms, some (first n b))

  -- The bytes of the reads up to the error, where at most `fuel` of them are made.
  unfoldable pub read_all : ℕ → ℕ → List Message → List Bytes
  read_all zero n ms = []
  read_all (suc fuel) n ms =
      let (rest, b) = read n ms in
      let others = read_all fuel n rest in elim b [ some bs ↦ bs ∷ others | none ↦ [] ]

-- `wsWrapper.Write`: the messages that are sent, and the count with the error.
unfoldable pub write :
    Option Bytes → (Bytes → ℕ × Option Bytes) → Bytes → List Message × (ℕ × Option Bytes)
write (some e) next_writer p = ([], (0, some e))
write none next_writer p = let (n, e) = next_writer p in (text_message (take n p) ∷ [], (n, e))
