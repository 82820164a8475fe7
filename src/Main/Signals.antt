-- ===== src/Main/Signals.antt =====
-- util/util.go: `WaitSignals`, over the errors and signals that it receives, in their order.
use container_web_tty.Base.{
  if◌then◌else◌, length, Bytes, ℕ, ◌+◌, ◌≤◌, ◌≡◌, refl, ◌⊎◌, inl, inr, Bool, true, false, Option,
  none, some, List, [], ◌∷◌, arith,
}

pub data Event : Type 0 where
  server_ends : Option Bytes → Event
  interrupt : Event
  terminate : Event

-- What has been called, and the result once it has returned.
pub record Waited : Type 0 where
  pub graceful : Bool
  pub forced : Bool
  pub result : Option (Option Bytes)

-- The inner `select`, after the graceful shutdown began.
unfoldable pub wait_again : List Event → Waited
wait_again [] = record { graceful = true; forced = false; result = none }
wait_again (server_ends e ∷ es) = record { graceful = true; forced = false; result = some e }
wait_again (interrupt ∷ es) = record { graceful = true; forced = true; result = some none }
wait_again (terminate ∷ es) = record { graceful = true; forced = true; result = some none }

unfoldable pub wait_signals : List Event → Waited
unfolding wait_again
wait_signals [] = record { graceful = false; forced = false; result = none }
wait_signals (server_ends e ∷ es) = record { graceful = false; forced = false; result = some e }
wait_signals (interrupt ∷ es) = wait_again es
wait_signals (terminate ∷ es) = record { graceful = false; forced = true; result = some none }

abbrev pub is_signal : Event → Bool
is_signal (server_ends e) = false
is_signal interrupt = true
is_signal terminate = true

abbrev pub signals : List Event → ℕ
signals [] = 0
signals (e ∷ es) = (if is_signal e then 1 else 0) + signals es

-- A shutdown is forced only by a first signal to terminate or after two signals; the function never
-- waits for a third event; and where it reports a server's error, nothing was forced.
pub wait_signals_lem :
    (es : List Event)
    → ((wait_signals es).forced ≡ true
        → ((es' : List Event) × (es ≡ terminate ∷ es')) ⊎ (2 ≤ signals es))
      × ((wait_signals es).result ≡ none → length es ≤ 1)
      × ((e : Bytes) → (wait_signals es).result ≡ some (some e) → (wait_signals es).forced ≡ false)
unfolding wait_signals wait_again
wait_signals_lem [] = ((λ h. cc), (λ h. omega arith), λ e h. refl)
wait_signals_lem (server_ends x ∷ es) = ((λ h. cc), (λ h. cc), λ e h. refl)
wait_signals_lem (terminate ∷ es) = ((λ h. inl (es, refl)), (λ h. cc), λ e h. cc)
wait_signals_lem (interrupt ∷ []) = ((λ h. cc), (λ h. omega arith), λ e h. refl)
wait_signals_lem (interrupt ∷ server_ends x ∷ es) = ((λ h. cc), (λ h. cc), λ e h. refl)
wait_signals_lem (interrupt ∷ interrupt ∷ es) = ((λ h. inr (omega arith)), (λ h. cc), λ e h. cc)
wait_signals_lem (interrupt ∷ terminate ∷ es) = ((λ h. inr (omega arith)), (λ h. cc), λ e h. cc)
