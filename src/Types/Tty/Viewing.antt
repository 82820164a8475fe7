-- ===== src/Types/Tty/Viewing.antt =====
-- types/tty.go: what a reader of a forked terminal sees, from the kept output on.
use container_web_tty.Base.{
  if◌then◌else◌, length, take, drop, concat, is_empty, Bytes, ℕ, ◌≤◌, ◌<◌, ◌≡◌, refl, ap, ◌∙◌, Bool,
  true, false, Option, none, some, List, [], ◌∷◌, ◌++◌, map, arith,
}
use container_web_tty.Base.{take_of_length-le, take-append_length, le→leb, length-append_drop, All}
use container_web_tty.Types.Tty.{
  SlaveTty, ReadResult, panics, reads, slave_read, fork, new_outputs, absorb_all, max_outputs,
}
use container_web_tty.Types.Tty.History.{keep_last, fork_history}

-- The bytes `p[:n]` that a read gives, its buffer and the terminal behind it; `none` for a panic.
abbrev given : ReadResult → Option (Bytes × Bytes × SlaveTty)
given panics = none
given (reads p n s) = some (take n p, p, s)

-- The reads of one reader with one buffer, over the messages of the subscription, up to a panic. A
-- read that finds no kept output waits for a message.
unfoldable pub slave_loop : Bytes → List Bytes → SlaveTty → List (Option Bytes)
slave_loop p [] s = []
slave_loop p (m ∷ ms) s = elim (given (slave_read p m s)) [
  | none ↦ none ∷ []
  | some (bs, p', s') ↦ some bs ∷ slave_loop p' ms s'
]

-- The first read of a joined terminal takes the kept output and no message.
unfoldable pub join_loop : Bytes → List Bytes → SlaveTty → List (Option Bytes)
unfolding slave_loop
join_loop p ms s =
    if is_empty s.master_outputs then slave_loop p ms s else elim (given (slave_read p [] s)) [
      | none ↦ none ∷ []
      | some (bs, p', s') ↦ some bs ∷ slave_loop p' ms s'
    ]

-- A message that fits stands at the front of the buffer, which keeps its length.
read-message :
    (p m : Bytes) (s : SlaveTty)
    → is_empty s.master_outputs ≡ true
    → length m ≤ length p
    → given (slave_read p m s) ≡ some (m, m ++ drop (length m) p, s)
unfolding slave_read
read-message p m s e h =
    let fits = le→leb (length m) (length p) h in
    rw (e, fits, slave_read) rw (take-append_length m (drop (length m) p)) refl

slave_loop-messages :
    (n : ℕ) (p : Bytes) (ms : List Bytes) (s : SlaveTty)
    → is_empty s.master_outputs ≡ true
    → length p ≡ n
    → All (λ m. length m ≤ n) ms
    → slave_loop p ms s ≡ map some ms
unfolding slave_loop
slave_loop-messages n p [] s e same h = refl
slave_loop-messages n p (m ∷ ms) s e same (fits, h) =
    let short : length m ≤ length p = omega arith in
    rw (read-message p m s e short, slave_loop)
      (ap (◌∷◌ (some m)) (
        slave_loop-messages n (m ++ drop (length m) p) ms s e (length-append_drop m p short ∙ same)
          h))

is_empty-length : (xs : Bytes) → 0 < length xs → is_empty xs ≡ false
is_empty-length [] h = absurd (omega arith)
is_empty-length (x ∷ xs) h = refl

-- The first read fills the whole buffer, also behind the kept output.
read-kept :
    (p : Bytes) (s : SlaveTty)
    → is_empty s.master_outputs ≡ false
    → length s.master_outputs ≤ length p
    → given (slave_read p [] s)
      ≡ some (
        s.master_outputs ++ drop (length s.master_outputs) p,
        s.master_outputs ++ drop (length s.master_outputs) p,
        record s { master_outputs = [] },
      )
unfolding slave_read
read-kept p s e h =
    let fits = le→leb (length s.master_outputs) (length p) h in
    let whole =
      take_of_length-le (length p) (s.master_outputs ++ drop (length s.master_outputs) p)
        (omega (arith, length-append_drop s.master_outputs p h)) in
    rw (e, fits, slave_read) (rw whole refl)

join_loop-kept :
    (p : Bytes) (ms : List Bytes) (s : SlaveTty)
    → is_empty s.master_outputs ≡ false
    → length s.master_outputs ≤ length p
    → All (λ m. length m ≤ length p) ms
    → join_loop p ms s ≡ some (s.master_outputs ++ drop (length s.master_outputs) p) ∷ map some ms
unfolding join_loop
join_loop-kept p ms s e h fits =
    rw (e, read-kept p s e h)
      (ap (◌∷◌ (some (s.master_outputs ++ drop (length s.master_outputs) p))) (
        slave_loop-messages (length p) (s.master_outputs ++ drop (length s.master_outputs) p) ms
          (record s { master_outputs = [] }) refl (length-append_drop s.master_outputs p h) fits))

-- A terminal that is joined when the master keeps the pieces `before` of the output, and that then
-- receives the pieces `after`, shows, in a reader with a buffer of at least 1000 bytes that no piece
-- exceeds: first the last 1000 bytes of a new master's zero bytes with the output before, followed
-- by what stood in the rest of the buffer, and then exactly the pieces after, without a panic.
pub joined_view :
    (id : ℕ) (collaborate : Bool) (before after : List Bytes) (p : Bytes)
    → max_outputs ≤ length p
    → All (λ m. length m ≤ length p) after
    → join_loop p after (fork id collaborate (absorb_all new_outputs before))
      ≡ some (keep_last max_outputs (new_outputs ++ concat before) ++ drop max_outputs p)
        ∷ map some after
unfolding max_outputs
joined_view id collaborate before after p l h =
    let slave = fork id collaborate (absorb_all new_outputs before) in
    let (kept, size) = fork_history id collaborate before in
    join_loop-kept p after slave (is_empty-length slave.master_outputs (omega (arith, size)))
      (omega (arith, size)) h
    ∙ rw (size, kept) refl
