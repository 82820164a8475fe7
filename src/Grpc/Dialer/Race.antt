-- ===== src/Grpc/Dialer/Race.antt =====
-- container/grpc/dialer.go: `dialWithTimeout`, between the timer and the goroutine that dials, which
-- hands the connection over on a channel without a buffer.
use container_web_tty.Base.{ℕ, ◌≡◌, refl, subst, ◌≢◌, Bool, true, false}

-- The goroutine dials, waits to send the connection, has sent it, or has logged the error.
pub data Dialling : Type 0 where
  pending : Dialling
  sending : ℕ → Dialling
  sent : ℕ → Dialling
  logged : Dialling

-- The function waits, or has returned a connection or the error of the timeout.
pub data Result : Type 0 where
  waiting : Result
  connected : ℕ → Result
  timed_out : Result

pub record Race : Type 0 where
  pub dialling : Dialling
  pub fired : Bool
  pub result : Result

abbrev pub start : Race
start = record { dialling = pending; fired = false; result = waiting }

pub data Step (s : Race) : Race → Type 0 where
  succeeds : (c : ℕ) → s.dialling ≡ pending → Step s (record s { dialling = sending c })
  fails : s.dialling ≡ pending → Step s (record s { dialling = logged })
  fires : s.result ≡ waiting → Step s (record s { fired = true })
  takes_timer : s.result ≡ waiting → s.fired ≡ true → Step s (record s { result = timed_out })
  takes_connection :
      (c : ℕ)
      → s.result ≡ waiting
      → s.dialling ≡ sending c
      → Step s (record s { dialling = sent c; result = connected c })

pub data Reach (s : Race) : Race → Type 0 where
  here : Reach s s
  next : {t u : Race} → Reach s t → Step t u → Reach s u

-- What each result says of the rest.
abbrev Explains : Result → Race → Type 0
Explains waiting s = (c : ℕ) → s.dialling ≢ sent c
Explains (connected c) s = s.dialling ≡ sent c
Explains timed_out s = (s.fired ≡ true) × ((c : ℕ) → s.dialling ≢ sent c)

Step-Explains : {s t : Race} → Step s t → Explains s.result s → Explains t.result t
Step-Explains {s} (succeeds c e) h = by_result s.result h
  where
    by_result : (r : Result) → Explains r s → Explains r (record s { dialling = sending c })
    by_result waiting h = λ d x. cc
    by_result (connected d) h = cc
    by_result timed_out h = (h.0, λ d x. cc)
Step-Explains {s} (fails e) h = by_result s.result h
  where
    by_result : (r : Result) → Explains r s → Explains r (record s { dialling = logged })
    by_result waiting h = λ d x. cc
    by_result (connected d) h = cc
    by_result timed_out h = (h.0, λ d x. cc)
Step-Explains {s} (fires e) h = by_result s.result h
  where
    by_result : (r : Result) → Explains r s → Explains r (record s { fired = true })
    by_result waiting h = h
    by_result (connected d) h = h
    by_result timed_out h = (refl, h.1)
Step-Explains {s} (takes_timer w f) h = (f, subst (λ (r : Result). Explains r s) w h)
Step-Explains {s} (takes_connection c w e) h = refl

Reach-Explains : {s : Race} → Reach start s → Explains s.result s
Reach-Explains here = λ c e. cc
Reach-Explains (next r i) = Step-Explains i (Reach-Explains r)

-- Once the function has returned the error, a goroutine that waits to send goes on waiting.
Step-stuck :
    {s t : Race}
    → (c : ℕ) → Step s t
    → (s.result ≡ timed_out) × (s.dialling ≡ sending c)
    → (t.result ≡ timed_out) × (t.dialling ≡ sending c)
Step-stuck c (succeeds d e) h = absurd (cc)
Step-stuck c (fails e) h = absurd (cc)
Step-stuck c (fires w) h = h
Step-stuck c (takes_timer w f) h = (refl, h.1)
Step-stuck c (takes_connection d w e) h = absurd (cc)

Reach-stuck :
    {s t : Race}
    → (c : ℕ) → Reach s t
    → (s.result ≡ timed_out) × (s.dialling ≡ sending c)
    → (t.result ≡ timed_out) × (t.dialling ≡ sending c)
Reach-stuck c here h = h
Reach-stuck c (next r i) h = Step-stuck c i (Reach-stuck c r h)

explained : (s : Race) (r : Result) → Reach start s → s.result ≡ r → Explains r s
explained s r reached e = subst (λ (q : Result). Explains q s) e (Reach-Explains reached)

-- A connection that is returned is the one that the goroutine dialled and sent; the error is returned
-- only after the timer fired, also where the dial failed before; and a connection that comes after
-- the error is never taken, so that its goroutine waits for ever.
pub dial_race :
    (s : Race)
    → Reach start s
    → ((c : ℕ) → s.result ≡ connected c → s.dialling ≡ sent c)
      × (s.result ≡ timed_out → s.fired ≡ true)
      × ((c : ℕ) → s.dialling ≡ logged → s.result ≢ connected c)
      × ((c : ℕ) (t : Race)
          → s.result ≡ timed_out
          → s.dialling ≡ sending c
          → Reach s t
          → (t.result ≡ timed_out) × (t.dialling ≡ sending c))
dial_race s r = (
  (λ c e. explained s (connected c) r e),
  (λ e. (explained s timed_out r e).0),
  (λ c l e. let kept = explained s (connected c) r e in cc),
  λ c t e d u. Reach-stuck c u (e, d),
)
