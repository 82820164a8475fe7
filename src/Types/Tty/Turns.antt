-- ===== src/Types/Tty/Turns.antt =====
-- types/tty.go: writers of one session take turns. A session is run over attempts to write, in the
-- order of their times, by the master and by slaves that may write.
use container_web_tty.Base.{
  ltb, if◌then◌else◌, Bool-cases, length, length-append, Bytes, ℕ, ◌+◌, ◌≤◌, ◌≡◌, refl, sym, subst,
  ◌≢◌, inl, inr, true, false, Option, none, some, List, [], ◌∷◌, arith,
}
use container_web_tty.Types.Tty.{
  new_writer, Wrote, MutexWriter, Session, SlaveTty, wait_duration, master_can_write,
  slave_can_write, master_write, slave_write,
}

abbrev pub new_session : Session
new_session = record { writer = new_writer; sent = [] }

pub data Who : Type 0 where
  master : Who
  slave : ℕ → Who

pub record Attempt : Type 0 where
  pub time : ℕ
  pub who : Who
  pub text : Bytes

-- A write that reached the container: its time, and who wrote.
abbrev pub Entry : Type 0
Entry = ℕ × Who

abbrev pub a_slave : ℕ → SlaveTty
a_slave i = record { id = i; read_only = false; master_outputs = [] }

module _ (tty : Bytes → Wrote) where
  unfoldable pub write : Attempt → Session → Session
  write a s = elim a.who [
    | master ↦ (master_write tty a.time a.text s).0
    | slave i ↦ (slave_write tty a.time (a_slave i) a.text s).0
  ]

  -- An attempt is entered, newest first, if the container's terminal was written to.
  unfoldable pub attempt : Attempt → Session × List Entry → Session × List Entry
  unfolding write
  attempt a (s, log) =
      let s' = write a s in
      (s', if ltb (length s.sent) (length s'.sent) then (a.time, a.who) ∷ log else log)

  unfoldable pub attempts : List Attempt → Session × List Entry → Session × List Entry
  attempts [] st = st
  attempts (a ∷ rest) st = attempts rest (attempt a st)

-- Attempts in the order of their times, none before `now`.
abbrev pub InOrder : ℕ → List Attempt → Type 0
InOrder now [] = Unit {0}
InOrder now (a ∷ rest) = (now ≤ a.time) × InOrder a.time rest

abbrev pub ApartFrom : Entry → List Entry → Type 0
ApartFrom e [] = Unit {0}
ApartFrom e (f ∷ log) = (e.1 ≢ f.1 → f.0 + wait_duration ≤ e.0) × ApartFrom e log

-- Any two writes by different writers are at least `wait_duration` apart.
abbrev pub Apart : List Entry → Type 0
Apart [] = Unit {0}
Apart (e ∷ log) = ApartFrom e log × Apart log

-- What the writer's fields say of the slave `i` that wrote at `t`.
abbrev FitsSlave : Option ℕ → ℕ → ℕ → ℕ → Type 0
FitsSlave none last i t = ⊥
FitsSlave (some j) last i t = (t ≤ last) × (i ≢ j → t + wait_duration ≤ last)

abbrev Fits : MutexWriter → Entry → Type 0
Fits w (t, master) = t ≤ w.last_master_write_time
Fits w (t, slave i) = FitsSlave w.last_wrote_slave w.last_slave_write_time i t

abbrev AllFit : MutexWriter → List Entry → Type 0
AllFit w [] = Unit {0}
AllFit w (e ∷ log) = Fits w e × AllFit w log

record Inv (now : ℕ) (w : MutexWriter) (log : List Entry) : Type 0 where
  fits : AllFit w log
  apart : Apart log
  master_past : w.last_master_write_time ≤ now
  slave_past : w.last_slave_write_time ≤ now

abbrev by_master : ℕ → MutexWriter → MutexWriter
by_master t w = record w { last_master_write_time = t }

abbrev by_slave : ℕ → ℕ → MutexWriter → MutexWriter
by_slave t i w = record w { last_slave_write_time = t; last_wrote_slave = some i }

master_fits :
    (t : ℕ) (w : MutexWriter) (log : List Entry)
    → w.last_master_write_time ≤ t
    → master_can_write t w ≡ true
    → AllFit w log
    → AllFit (by_master t w) log × ApartFrom (t, master) log
unfolding master_can_write
master_fits t w [] h c a = (tt, tt)
master_fits t w ((u, master) ∷ log) h c a =
    let (fit, apart) = master_fits t w log h c a.1 in
    ((omega arith, fit), (λ differ. absurd (differ refl), apart))
master_fits t w ((u, slave i) ∷ log) h c a =
    let (fit, apart) = master_fits t w log h c a.1 in ((a.0, fit), (λ differ. ground arith, apart))

slave_fits :
    (t i : ℕ) (w : MutexWriter) (log : List Entry)
    → w.last_slave_write_time ≤ t
    → slave_can_write t i w ≡ true
    → AllFit w log
    → AllFit (by_slave t i w) log × ApartFrom (t, slave i) log
unfolding slave_can_write
slave_fits t i w [] h c a = (tt, tt)
slave_fits t i w ((u, master) ∷ log) h c a =
    let (fit, apart) = slave_fits t i w log h c a.1 in ((a.0, fit), (λ differ. ground arith, apart))
slave_fits t i w ((u, slave j) ∷ log) h c a =
    let (fit, apart) = slave_fits t i w log h c a.1 in
    ((ground arith, fit), (λ differ. ground arith, apart))

module _ (tty : Bytes → Wrote) where
  attempt_master :
      (t now : ℕ) (p : Bytes) (s : Session) (log : List Entry)
      → now ≤ t
      → Inv now s.writer log
      → let st = attempt tty (record { time = t; who = master; text = p }) (s, log) in
        Inv t (st.0).writer st.1
  unfolding attempt master_write
  attempt_master t now p s log h v = elim (Bool-cases (master_can_write t s.writer)) [
    | inl e ↦
        let (fit, apart) = master_fits t s.writer log (omega arith) e v.fits in
        rw (e, attempt, write, master_write)
          (ground (arith, fit, apart, v.apart, v.slave_past, length-append s.sent (p ∷ [])))
    | inr e ↦
        rw (e, attempt, write, master_write)
          (ground (arith, v.fits, v.apart, v.master_past, v.slave_past))
  ]

  attempt_slave :
      (t now i : ℕ) (p : Bytes) (s : Session) (log : List Entry)
      → now ≤ t
      → Inv now s.writer log
      → let st = attempt tty (record { time = t; who = slave i; text = p }) (s, log) in
        Inv t (st.0).writer st.1
  unfolding attempt slave_write
  attempt_slave t now i p s log h v = elim (Bool-cases (slave_can_write t i s.writer)) [
    | inl e ↦
        let (fit, apart) = slave_fits t i s.writer log (omega arith) e v.fits in
        rw (e, attempt, write, slave_write)
          (ground (arith, fit, apart, v.apart, v.master_past, length-append s.sent (p ∷ [])))
    | inr e ↦
        rw (e, attempt, write, slave_write)
          (ground (arith, v.fits, v.apart, v.master_past, v.slave_past))
  ]

  attempt-Inv :
      (now : ℕ) (a : Attempt) (who : Who) (st : Session × List Entry)
      → a.who ≡ who
      → now ≤ a.time
      → Inv now (st.0).writer st.1
      → let st' = attempt tty a st in Inv a.time (st'.0).writer st'.1
  attempt-Inv now a master (s, log) e h v =
      subst
        (λ w.
          let st' = attempt tty (record { time = a.time; who = w; text = a.text }) (s, log) in
          Inv a.time (st'.0).writer st'.1)
        (sym e) (attempt_master a.time now a.text s log h v)
  attempt-Inv now a (slave i) (s, log) e h v =
      subst
        (λ w.
          let st' = attempt tty (record { time = a.time; who = w; text = a.text }) (s, log) in
          Inv a.time (st'.0).writer st'.1)
        (sym e) (attempt_slave a.time now i a.text s log h v)

  attempts-Apart :
      (now : ℕ) (tries : List Attempt) (st : Session × List Entry)
      → InOrder now tries
      → Inv now (st.0).writer st.1
      → Apart (attempts tty tries st).1
  unfolding attempts
  attempts-Apart now [] st o v = v.apart
  attempts-Apart now (a ∷ rest) st o v =
      attempts-Apart a.time rest (attempt tty a st) o.1 (attempt-Inv now a a.who st refl o.0 v)

  -- In any history of attempts, in the order of their times, by the master of a new session and by
  -- slaves that may write, two writes by different writers that reach the container are at least a
  -- second apart.
  pub turns-Apart :
      (tries : List Attempt) → InOrder 0 tries → Apart (attempts tty tries (new_session, [])).1
  turns-Apart tries o =
      attempts-Apart 0 tries (new_session, []) o
        (record { fits = tt; apart = tt; master_past = omega arith; slave_past = omega arith })
