-- ===== src/Kube/Exit/Ends.antt =====
-- container/kube/tty.go: `Exit` is never stuck in its writes.
use container_web_tty.Base.{
  ltb, Bool-cases, ℕ, zero, suc, ◌+◌, ◌<◌, ◌≡◌, refl, subst, ◌≢◌, inl, inr, Bool, true, false, ◌&&◌,
  arith,
}
use container_web_tty.Kube.Exit.{
  Stream, running, returned, in_closed, out_closed, Stage, uncalled, writes_interrupt, writes_end,
  closing, Terminal, opened, next_stage, is_writing, Step, is_read, is_refused, closes, closes_in,
  closes_out, ends, Reach, here, calls, next,
}

-- Behind a closed input the stream is over.
abbrev Fits : Stream → Bool → Type 0
Fits running o = Unit
Fits returned o = Unit
Fits in_closed o = o ≡ false
Fits out_closed o = o ≡ false

Fits-closed : (s : Stream) → Fits s false
Fits-closed running = tt
Fits-closed returned = tt
Fits-closed in_closed = refl
Fits-closed out_closed = refl

Fits-and : (s : Stream) (a b : Bool) → Fits s a → Fits s (a && b)
Fits-and s true true h = h
Fits-and s true false h = Fits-closed s
Fits-and s false b h = h

Step-Fits : {t u : Terminal} → Step t u → Fits t.stream t.in_open → Fits u.stream u.in_open
Step-Fits {t} (is_read w r o) h = h
Step-Fits {t} (is_refused w o) h = h
Step-Fits {t} (closes k e) h = Fits-and t.stream t.in_open (ltb 4 k) h
Step-Fits {t} (closes_in e) h = refl
Step-Fits {t} (closes_out e) h = subst (λ (s : Stream). Fits s t.in_open) e h
Step-Fits {t} (ends e) h = tt

Reach-Fits : {t : Terminal} → Reach opened t → Fits t.stream t.in_open
Reach-Fits here = tt
Reach-Fits (calls r e) = Reach-Fits r
Reach-Fits (next r s) = Step-Fits s (Reach-Fits r)

abbrev stage_left : Stage → ℕ
stage_left uncalled = 9
stage_left writes_interrupt = 8
stage_left writes_end = 7
stage_left (closing k) = k

abbrev stream_left : Stream → ℕ
stream_left running = 3
stream_left returned = 2
stream_left in_closed = 1
stream_left out_closed = 0

-- A bound on the steps that are left.
abbrev pub left : Terminal → ℕ
left t = stage_left t.stage + stream_left t.stream

next_stage_left : (s : Stage) → is_writing s ≡ true → stage_left (next_stage s) < stage_left s
next_stage_left uncalled w = cc
next_stage_left writes_interrupt w = omega arith
next_stage_left writes_end w = omega arith
next_stage_left (closing k) w = cc

left-Step : {t u : Terminal} → Step t u → left u < left t
left-Step {t} (is_read w r o) = omega (arith, next_stage_left t.stage w)
left-Step {t} (is_refused w o) = omega (arith, next_stage_left t.stage w)
left-Step {t} (closes k e) = rw e (omega arith)
left-Step {t} (closes_in e) = rw e (omega arith)
left-Step {t} (closes_out e) = rw e (omega arith)
left-Step {t} (ends e) = rw e (omega arith)

-- A write goes on, or the goroutine that will end it does.
writing-Step :
    (t : Terminal) (s : Stream)
    → t.stream ≡ s
    → Fits s t.in_open
    → is_writing t.stage ≡ true
    → (u : Terminal) × Step t u
writing-Step t running e h w = elim (Bool-cases t.in_open) [
  | inl o ↦ (_, is_read w e o)
  | inr c ↦ (_, is_refused w c)
]
writing-Step t returned e h w = (_, closes_in e)
writing-Step t in_closed e h w = (_, is_refused w h)
writing-Step t out_closed e h w = (_, is_refused w h)

stage-Step :
    (t : Terminal) (s : Stage)
    → t.stage ≡ s
    → Fits t.stream t.in_open
    → s ≢ uncalled
    → s ≢ closing 0
    → (u : Terminal) × Step t u
stage-Step t uncalled e h c d = absurd (c refl)
stage-Step t writes_interrupt e h c d = writing-Step t t.stream refl h (rw e refl)
stage-Step t writes_end e h c d = writing-Step t t.stream refl h (rw e refl)
stage-Step t (closing zero) e h c d = absurd (d refl)
stage-Step t (closing (suc k)) e h c d = (_, closes k e)

-- Once it is called, `Exit` comes to its end whether the stream runs, and reads its input, or is over:
-- before its last close there is always a step, of itself or of the goroutine of `Exec`, and every
-- step takes away from a number that bounds the steps.
pub exit_ends :
    (t : Terminal)
    → Reach opened t
    → (t.stage ≢ uncalled → t.stage ≢ closing 0 → (u : Terminal) × Step t u)
      × ((u : Terminal) → Step t u → left u < left t)
exit_ends t r = ((λ c d. stage-Step t t.stage refl (Reach-Fits r) c d), λ u s. left-Step s)
