-- ===== src/Grpc/Pipe.antt =====
-- container/grpc/grpc.go: the goroutine of `Logs` between the stream of the remote server and the
-- pipe that the caller reads, with the loop of proxy/server.go's `Logs` at the other end.
mod Tests
use container_web_tty.Base.{take, Bytes, ℕ, zero, suc, ◌≡◌, refl, ap, ◌∙◌, List, [], ◌∷◌, arith}
use container_web_tty.Proxy.Streams.{fine, other, Round, send_logs}

-- What `Recv` gives.
pub data Recv : Type 0 where
  received : Bytes → Recv
  ended : Bytes → Recv

-- The writes into the pipe that are taken, from a reader that closes it after a number of them: the
-- next write fails, and an error of `Recv` ends the loop as well.
unfoldable pub copy : ℕ → List Recv → List Bytes
copy n [] = []
copy n (ended e ∷ rest) = []
copy zero (received b ∷ rest) = []
copy (suc n) (received b ∷ rest) = b ∷ copy n rest

-- The stream gives the sent messages in their order, and the end behind them.
unfoldable pub delivered : Bytes → List Bytes → List Recv
delivered e [] = ended e ∷ []
delivered e (b ∷ bs) = received b ∷ delivered e bs

-- What the server reads from the backend's log before the first error.
unfoldable pub logged : List Round → List Bytes
logged [] = []
logged (r ∷ rest) =
    let others = logged rest in elim r.read_fault [ fine ↦ r.bytes ∷ others | _ ↦ [] ]

-- No send of the server fails.
abbrev pub AllSent : List Round → Type 0
AllSent [] = Unit
AllSent (r ∷ rest) = (r.send_fault ≡ fine) × AllSent rest

copy-delivered : (n : ℕ) (e : Bytes) (bs : List Bytes) → copy n (delivered e bs) ≡ take n bs
unfolding copy delivered
copy-delivered zero e [] = refl
copy-delivered (suc n) e [] = refl
copy-delivered zero e (b ∷ bs) = refl
copy-delivered (suc n) e (b ∷ bs) = ap (◌∷◌ b) (copy-delivered n e bs)

send_logs-logged : (rounds : List Round) → AllSent rounds → (send_logs rounds).0 ≡ logged rounds
unfolding send_logs logged
send_logs-logged [] h = refl
send_logs-logged (r ∷ rest) (s, h) = let others = send_logs-logged rest h in ground arith

-- Where no send of the server fails, the reader of a remote container's log reads what the server
-- reads from its backend before the first error, piece by piece and in order, up to the number of
-- pieces after which it closes the pipe.
pub remote_logs :
    (rounds : List Round) (n : ℕ) (e : Bytes)
    → AllSent rounds
    → copy n (delivered e (send_logs rounds).0) ≡ take n (logged rounds)
remote_logs rounds n e h =
    copy-delivered n e (send_logs rounds).0 ∙ ap (take n) (send_logs-logged rounds h)
