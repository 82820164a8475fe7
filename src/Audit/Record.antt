-- ===== src/Audit/Record.antt =====
-- audit/audit.go: the file against the output that was read.
use container_web_tty.Base.{
  if◌then◌else◌, Bool-cases, Option-cases, length, take, drop, length-append, take_of_length-le,
  drop_of_length-le, Bytes, ◌+◌, ◌-◌, ◌≡◌, sym, ap, ◌∙◌, inl, inr, ◌||◌, none, some, List, [], ◌∷◌,
  ◌++◌, arith,
}
use mathlib.Core.List.{append-nil, append_assoc}
use container_web_tty.Audit.{Round, write_at, log_loop, log_to}

-- What the rounds bring, up to the first that stops.
pub recorded : List Round → Bytes
recorded [] = []
recorded (r ∷ rest) =
    let others = recorded rest in
    if r.cancelled || r.read_failed
    then []
    else elim r.failed_after [ some k ↦ take k r.bytes | none ↦ r.bytes ++ others ]

write_at_end : (file bytes : Bytes) → write_at (length file) bytes file ≡ file ++ bytes
unfolding write_at
write_at_end file bytes =
    let no_gap : length file - length file ≡ 0 = omega arith in
    let nothing : drop (length file + length bytes) file ≡ [] =
      drop_of_length-le (length file + length bytes) file (omega arith) in
    rw (no_gap, nothing, append-nil, append-nil, take_of_length-le (length file) file (omega arith))

log_loop-recorded :
    (rounds : List Round) (file : Bytes)
    → log_loop rounds (length file) file ≡ file ++ recorded rounds
unfolding log_loop recorded
log_loop-recorded [] file = sym (append-nil file)
log_loop-recorded (r ∷ rest) file =
    let next : log_loop rest (length file + length r.bytes) (file ++ r.bytes)
        ≡ file ++ (r.bytes ++ recorded rest) =
      ap (λ n. log_loop rest n (file ++ r.bytes)) (sym (length-append file r.bytes))
      ∙ log_loop-recorded rest (file ++ r.bytes)
      ∙ append_assoc file r.bytes (recorded rest) in
    elim (Bool-cases (r.cancelled || r.read_failed)) [
      | inl e ↦ rw (e, append-nil)
      | inr e ↦ elim (Option-cases r.failed_after) [
        | inl ok ↦ rw (e, ok, write_at_end, next)
        | inr (k, failed) ↦ rw (e, failed, write_at_end)
      ]
    ]

-- The file holds exactly the bytes that were read, in order and without a gap, up to the round that
-- ends the loop, and of a write that fails the bytes that it had written.
pub log_to-recorded : (rounds : List Round) → log_to rounds ≡ recorded rounds
unfolding log_to
log_to-recorded rounds = log_loop-recorded rounds []
