-- ===== src/Proxy/Streams/Relay.antt =====
-- proxy/server.go: what the loops pass on.
use mathlib.Core.List.{append-nil, append_assoc}
use container_web_tty.Base.{
  ◌≡◌, ◌∙◌, ◌≢◌, inl, inr, true, Option, none, some, List, [], ◌∷◌, ◌++◌, arith,
}
use container_web_tty.Proxy.Messages.{ExecMessage}
use container_web_tty.Proxy.Streams.{TtyCall, resizes, writes, other, Received, receive}

-- The calls that a message asks for, `none` if it has neither a size nor a command.
abbrev pub calls_of_message : ExecMessage → Option (List TtyCall)
calls_of_message m = elim m.ws [
  | some ws ↦ some (resizes ws.width ws.height ∷ [])
  | none ↦ elim m.cmd [ some io ↦ some (writes io.input ∷ []) | none ↦ none ]
]

abbrev pub calls_of : Received → Option (List TtyCall)
calls_of r = elim r.message [
  | inr e ↦ none
  | inl none ↦ some []
  | inl (some m) ↦ calls_of_message m
]

-- Rounds that bring messages with these calls, where no write fails but at the end of the file.
abbrev pub Brings : List Received → List TtyCall → Type 0
Brings [] cs = cs ≡ []
Brings (r ∷ rest) cs =
    (c : List TtyCall) × (ds : List TtyCall) × (calls_of r ≡ some c)
    × (r.write_fault ≢ other)
    × Brings rest ds
    × (cs ≡ c ++ ds)

receive-round :
    (r : Received) (rest : List Received) (c : List TtyCall)
    → calls_of r ≡ some c
    → r.write_fault ≢ other
    → receive (r ∷ rest)
      ≡ record { calls = c ++ (receive rest).calls; panicked = (receive rest).panicked }
unfolding receive
receive-round r rest c e h = ground arith

-- The receiving loop makes the calls of the messages, in their order, and goes on with the rounds
-- behind them.
pub receive-append :
    (rs rest : List Received) (cs : List TtyCall)
    → Brings rs cs
    → receive (rs ++ rest)
      ≡ record { calls = cs ++ (receive rest).calls; panicked = (receive rest).panicked }
receive-append [] rest cs e = rw e
receive-append (r ∷ rs) rest cs (c, ds, e, h, b, split_at) =
    receive-round r (rs ++ rest) c e h ∙ rw (receive-append rs rest ds b, split_at, append_assoc)

-- A message with neither a size nor a command, behind any such rounds, panics.
pub receive_empty_message :
    (rs rest : List Received) (cs : List TtyCall) (r : Received) (m : ExecMessage)
    → Brings rs cs
    → r.message ≡ inl (some m)
    → m.ws ≡ none
    → m.cmd ≡ none
    → receive (rs ++ r ∷ rest) ≡ record { calls = cs; panicked = true }
unfolding receive
receive_empty_message rs rest cs r m b message ws cmd =
    receive-append rs (r ∷ rest) cs b ∙ rw (message, ws, cmd, append-nil)
