-- ===== src/Terminal/Activity.antt =====
-- The activity channel of a terminal, under any order of its readers and its end.
use container_web_tty.Base.{◌+◌, ◌≤◌, ◌≡◌, refl, true, false, arith}
use container_web_tty.Terminal.{
  Channel, new_channel, Step, looks, sends, receives, exits, sends_closed, exits_again, Reach, here,
  next,
}

record IsSafe (c : Channel) : Type 0 where
  room : c.queued ≤ 5
  fault : c.crashed ≡ true → c.closed ≡ true

Step-IsSafe : {c d : Channel} → Step c d → IsSafe c → IsSafe d
Step-IsSafe (looks e) s = record { room = s.room; fault = s.fault }
Step-IsSafe (sends k e opened room) s = record { room = omega arith; fault = s.fault }
Step-IsSafe (receives k e) s = record { room = omega (arith, s.room); fault = s.fault }
Step-IsSafe (exits e) s = record { room = s.room; fault = λ h. refl }
Step-IsSafe (sends_closed k e closed) s = record { room = s.room; fault = λ h. closed }
Step-IsSafe (exits_again closed) s = record { room = s.room; fault = λ h. closed }

Reach-IsSafe : {c d : Channel} → Reach c d → IsSafe c → IsSafe d
Reach-IsSafe here s = s
Reach-IsSafe (next r st) s = Step-IsSafe st (Reach-IsSafe r s)

-- However reads, receives and the end of a new terminal interleave, no more than five signals are
-- waiting, and the channel's misuse ends the program only after `Exit`.
pub channel_safe :
    (c : Channel) → Reach new_channel c → (c.queued ≤ 5) × (c.crashed ≡ true → c.closed ≡ true)
channel_safe c r =
    let s = Reach-IsSafe r (record { room = omega arith; fault = λ h. cc }) in (s.room, s.fault)

-- From every open channel with no signal waiting, a read whose goroutine sends after `Exit` ends the
-- program.
pub exit_may_crash :
    (c : Channel) → c.queued ≡ 0 → c.closed ≡ false → (d : Channel) × Reach c d × (d.crashed ≡ true)
exit_may_crash c empty opened =
    let seen : Channel = record c { senders = c.senders + 1 } in
    let ended : Channel = record seen { closed = true } in
    (
      record ended { crashed = true },
      next (next (next here (looks empty)) (exits opened))
          (sends_closed c.senders (omega arith) refl),
      refl,
    )
