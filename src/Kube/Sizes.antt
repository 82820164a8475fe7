-- ===== src/Kube/Sizes.antt =====
-- container/kube/tty.go: `ResizeTerminal` and the queue of sizes between it and the stream that asks
-- for the next one. The channel has no buffer.
pub mod Order
mod Tests
use container_web_tty.Base.{ℕ, suc, ◌-◌, ◌%◌, ◌^◌, ◌≡◌, Bool, true, false, List, [], ◌∷◌, ◌++◌}
use container_web_tty.Base.Int.{ℤ, pos, negsuc}

-- Go's conversion of an `int` to a `uint16`.
abbrev pub uint16 : ℤ → ℕ
uint16 (pos n) = n % 2 ^ 16
uint16 (negsuc n) = 2 ^ 16 - 1 - n % 2 ^ 16

-- `remotecommand.TerminalSize`
pub record TerminalSize : Type 0 where
  pub width : ℕ
  pub height : ℕ

unfoldable pub terminal_size : ℤ × ℤ → TerminalSize
terminal_size (width, height) = record { width = uint16 width; height = uint16 height }

-- `left` rounds of the loop of `ResizeTerminal` with the given size are still to be made; `taken` is
-- what `Next` has returned, and `finished` tells whether it has returned nil.
pub record Queue : Type 0 where
  pub asked : List (ℤ × ℤ)
  pub left : ℕ
  pub size : ℤ × ℤ
  pub taken : List TerminalSize
  pub closed : Bool
  pub finished : Bool
  pub crashed : Bool

abbrev pub new_queue : Queue
new_queue = record {
  asked = [];
  left = 0;
  size = (pos 0, pos 0);
  taken = [];
  closed = false;
  finished = false;
  crashed = false;
}

pub data Step (q : Queue) : Queue → Type 0 where
  -- A call of `ResizeTerminal`, after the one before has returned.
  resizes :
      (size : ℤ × ℤ)
      → q.left ≡ 0
      → Step q (record q { asked = q.asked ++ (size ∷ []); left = 3; size = size })
  -- `Next` receives what `resize` sends.
  takes :
      (k : ℕ)
      → q.left ≡ suc k
      → q.closed ≡ false
      → Step q (record q { left = k; taken = q.taken ++ (terminal_size q.size ∷ []) })
  -- `resize` recovers from its send on the closed channel.
  recovers : (k : ℕ) → q.left ≡ suc k → q.closed ≡ true → Step q (record q { left = k })
  -- `Next` returns nil.
  finishes : q.closed ≡ true → Step q (record q { finished = true })
  -- `close`, in `Exit`.
  closes : q.closed ≡ false → Step q (record q { closed = true })
  closes_again : q.closed ≡ true → Step q (record q { crashed = true })

pub data Reach (q : Queue) : Queue → Type 0 where
  here : Reach q q
  next : {r s : Queue} → Reach q r → Step r s → Reach q s
