-- ===== src/Types/Tty/History.antt =====
-- types/tty.go: what a master keeps of the container's output.
use mathlib.Core.List.{append-nil, append_assoc}
use container_web_tty.Base.{
  ltb, Bool-cases, length, drop, concat, length-append, length-drop, length-replicate,
  drop_of_length-le, drop-append_left, Bytes, ℕ, zero, suc, ◌+◌, ◌-◌, ◌≤◌, min, ◌≡◌, sym, ap, ◌∙◌,
  inl, inr, Bool, List, [], ◌∷◌, ◌++◌, arith,
}
use container_web_tty.Types.Tty.{max_outputs, new_outputs, absorb, absorb_all, fork}

-- The last `n` bytes of a text.
abbrev pub keep_last : ℕ → Bytes → Bytes
keep_last n xs = drop (length xs - n) xs

drop-drop : (m n : ℕ) (xs : Bytes) → drop m (drop n xs) ≡ drop (n + m) xs
drop-drop m zero xs = let e : zero + m ≡ m = omega arith in rw e
drop-drop m (suc n) [] =
    drop_of_length-le m [] (omega arith) ∙ sym (drop_of_length-le (suc n + m) [] (omega arith))
drop-drop m (suc n) (x ∷ xs) =
    let e : suc n + m ≡ suc (n + m) = omega arith in rw e (drop-drop m n xs)

length-keep_last : (n : ℕ) (xs : Bytes) → length (keep_last n xs) ≡ min n (length xs)
length-keep_last n xs = omega (arith, length-drop (length xs - n) xs)

keep_last_again : (n : ℕ) (a b : Bytes) → keep_last n (keep_last n a ++ b) ≡ keep_last n (a ++ b)
keep_last_again n a b =
    let front : drop (length a - n) (a ++ b) ≡ keep_last n a ++ b =
      drop-append_left (length a - n) a b (omega arith) in
    let count : (length a - n) + (length (keep_last n a ++ b) - n) ≡ length (a ++ b) - n =
      omega (arith, length-append a b, length-append (keep_last n a) b, length-keep_last n a) in
    ap (λ xs. drop (length (keep_last n a ++ b) - n) xs) (sym front)
    ∙ drop-drop (length (keep_last n a ++ b) - n) (length a - n) (a ++ b)
    ∙ ap (λ k. drop k (a ++ b)) count

absorb-eq-keep_last : (xs o : Bytes) → absorb xs o ≡ keep_last max_outputs (xs ++ o)
unfolding absorb
absorb-eq-keep_last xs o = elim (Bool-cases (ltb max_outputs (length (xs ++ o)))) [
  | inl e ↦ rw e
  | inr e ↦ let short : length (xs ++ o) - max_outputs ≡ 0 = ground arith in rw (e, short)
]

absorb_all-eq-keep_last :
    (xs : Bytes) (os : List Bytes)
    → length xs ≤ max_outputs
    → absorb_all xs os ≡ keep_last max_outputs (xs ++ concat os)
unfolding absorb_all
absorb_all-eq-keep_last xs [] h =
    let zero_cut : length (xs ++ []) - max_outputs ≡ 0 = omega (arith, length-append xs []) in
    rw zero_cut (sym (append-nil xs))
absorb_all-eq-keep_last xs (o ∷ os) h =
    absorb_all-eq-keep_last (absorb xs o) os
      (rw absorb-eq-keep_last (omega (arith, length-keep_last max_outputs (xs ++ o))))
    ∙ rw absorb-eq-keep_last (keep_last_again max_outputs (xs ++ o) (concat os) ∙ rw append_assoc)

length-new_outputs : length new_outputs ≡ max_outputs
unfolding new_outputs
length-new_outputs = length-replicate max_outputs 0

-- Whatever the container prints, in whatever pieces it is received, a fork starts with exactly
-- `max_outputs` bytes: the last ones of the zero bytes of a new master followed by all output.
pub fork_history :
    (id : ℕ) (collaborate : Bool) (os : List Bytes)
    → let slave = fork id collaborate (absorb_all new_outputs os) in
      (slave.master_outputs ≡ keep_last max_outputs (new_outputs ++ concat os))
      × (length (slave.master_outputs) ≡ max_outputs)
unfolding fork
fork_history id collaborate os =
    let kept = absorb_all-eq-keep_last new_outputs os (omega (arith, length-new_outputs)) in
    (
      kept,
      omega (
        arith,
        ap length kept,
        length-new_outputs,
        length-keep_last max_outputs (new_outputs ++ concat os),
        length-append new_outputs (concat os),
      ),
    )
