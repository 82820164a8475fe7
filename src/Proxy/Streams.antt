-- ===== src/Proxy/Streams.antt =====
-- proxy/server.go: the loops of `Exec` and `Logs`, over the messages and results that the stream
-- and the terminal give them, in order.
mod Relay
mod Tests
use container_web_tty.Base.{
  Bytes, ◌⊎◌, inl, inr, Bool, true, false, Option, none, some, List, [], ◌∷◌,
}
use container_web_tty.Base.Int.{ℤ}
use container_web_tty.Proxy.Messages.{ExecMessage}

-- A call on the terminal of the backend.
pub data TtyCall : Type 0 where
  resizes : ℤ → ℤ → TtyCall
  writes : Bytes → TtyCall

-- An error of a call, where the code tells the end of the stream from others.
pub data Fault : Type 0 where
  fine : Fault
  end_of_file : Fault
  other : Fault

-- One round of the receiving loop: what `Recv` gives, or its error, and what `Write` will return.
pub record Received : Type 0 where
  pub message : Option ExecMessage ⊎ Bytes
  pub write_fault : Fault

-- What the receiving loop has called, and whether it ended by a panic.
pub record Relayed : Type 0 where
  pub calls : List TtyCall
  pub panicked : Bool

abbrev pub then_call : TtyCall → Relayed → Relayed
then_call c r = record r { calls = c ∷ r.calls }

abbrev pub stopped : Relayed
stopped = record { calls = []; panicked = false }

-- The goroutine of `Exec`. `execOpts.Cmd.In` panics where `Cmd` is nil.
unfoldable pub receive : List Received → Relayed
receive [] = stopped
receive (r ∷ rest) =
    let others = receive rest in
    elim r.message [
      | inr e ↦ stopped
      | inl none ↦ others
      | inl (some m) ↦ elim m.ws [
        | some ws ↦ then_call (resizes ws.width ws.height) others
        | none ↦ elim m.cmd [
          | none ↦ record { calls = []; panicked = true }
          | some io ↦
              then_call (writes io.input)
                (elim r.write_fault [ fine ↦ others | end_of_file ↦ others | other ↦ stopped ])
        ]
      ]
    ]

-- One round of the sending loop: what `Read` gives and its error, and what `Send` returns.
pub record Round : Type 0 where
  pub bytes : Bytes
  pub read_fault : Fault
  pub send_fault : Fault

-- The loop of `Exec`: only the end of the file ends it at `Read`; another error is sent like data.
unfoldable pub send_all : List Round → List Bytes
send_all [] = []
send_all (r ∷ rest) =
    let others = send_all rest in
    elim r.read_fault [
      | end_of_file ↦ []
      | _ ↦ r.bytes ∷ elim r.send_fault [ other ↦ [] | _ ↦ others ]
    ]

-- The loop of `Logs`: what was sent, and whether `Send` failed.
unfoldable pub send_logs : List Round → List Bytes × Bool
send_logs [] = ([], false)
send_logs (r ∷ rest) =
    let others = send_logs rest in
    elim r.read_fault [
      | fine ↦ elim r.send_fault [
        | fine ↦ (r.bytes ∷ others.0, others.1)
        | _ ↦ (r.bytes ∷ [], true)
      ]
      | _ ↦ ([], false)
    ]
