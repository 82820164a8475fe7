-- ===== src/Terminal/Tests.antt =====
-- Tests of the terminals.
use container_web_tty.Base.{
  Bytes, str, ℕ, zero, suc, ◌+◌, ◌-◌, ◌≤◌, ◌<◌, ◌≡◌, refl, ◌≢◌, true, false, Option, none, some,
}
use container_web_tty.Terminal.{
  Channel, new_channel, Reach, here, next, looks, exits, resize_terminal,
}
use container_web_tty.Terminal.Activity.{channel_safe, exit_may_crash}
use container_web_tty.Terminal.Resize.{resize_terminal_lem}

abbrev ended : Channel
ended = record { queued = 0; senders = 1; closed = true; crashed = false }

channel_safe_test : (ended.queued ≤ 5) × (ended.crashed ≡ true → ended.closed ≡ true)
channel_safe_test = channel_safe ended (next (next here (looks refl)) (exits refl))

exit_may_crash_test : (d : Channel) × Reach new_channel d × (d.crashed ≡ true)
exit_may_crash_test = exit_may_crash new_channel refl refl

-- The terminal is ready at the third round.
abbrev resize : ℕ → Option Bytes
resize zero = some (str "not running")
resize (suc zero) = some (str "not running")
resize (suc (suc i)) = none

resize_terminal_lem_test :
    let (err, n) = resize_terminal resize in
    (1 ≤ n)
    × (n ≤ 3)
    × (err ≡ resize (n - 1))
    × (n < 3 → err ≡ none)
    × ((j : ℕ) → j + 1 < n → resize j ≢ none)
resize_terminal_lem_test = resize_terminal_lem resize
