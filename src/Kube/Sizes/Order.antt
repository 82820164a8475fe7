-- ===== src/Kube/Sizes/Order.antt =====
-- container/kube/tty.go: which sizes the stream is given.
use container_web_tty.Base.{
  replicate, ℕ, ◌<◌, ◌≡◌, refl, sym, ap, ◌∙◌, ◌↔◌, true, false, List, [], ◌∷◌, ◌++◌, arith,
}
use mathlib.Core.List.{append_assoc, append-nil}
use container_web_tty.Base.Int.{ℤ, pos, negsuc}
use container_web_tty.Kube.Sizes.{
  uint16, TerminalSize, terminal_size, Queue, new_queue, Step, resizes, takes, recovers, finishes,
  closes, closes_again, Reach, here, next,
}

-- Every size three times, in the order of the calls.
unfoldable pub thrice : List (ℤ × ℤ) → List TerminalSize
thrice [] = []
thrice (s ∷ ss) = replicate 3 (terminal_size s) ++ thrice ss

thrice-append :
    (ss : List (ℤ × ℤ)) (s : ℤ × ℤ)
    → thrice (ss ++ (s ∷ [])) ≡ thrice ss ++ replicate 3 (terminal_size s)
unfolding thrice
thrice-append [] s = refl
thrice-append (r ∷ ss) s =
    ap (λ (l : List TerminalSize). replicate 3 (terminal_size r) ++ l) (thrice-append ss s)

-- What is still to be taken: exactly the rounds that are left, or after `close` anything.
record Inv (q : Queue) : Type 0 where
  rest : List TerminalSize
  in_order : q.taken ++ rest ≡ thrice q.asked
  exact : q.closed ≡ false → rest ≡ replicate q.left (terminal_size q.size)
  unfinished : q.finished ≡ true → q.closed ≡ true
  uncrashed : q.crashed ≡ true → q.closed ≡ true

Step-Inv : {q r : Queue} → Step q r → Inv q → Inv r
Step-Inv {q} (resizes s e) v = record {
  rest = v.rest ++ replicate 3 (terminal_size s);
  in_order =
      sym (append_assoc q.taken v.rest (replicate 3 (terminal_size s)))
      ∙ (ap (λ (l : List TerminalSize). l ++ replicate 3 (terminal_size s)) v.in_order
          ∙ sym (thrice-append q.asked s));
  exact = λ h. (let none_left = v.exact h in rw (none_left, e) refl);
  unfinished = v.unfinished;
  uncrashed = v.uncrashed;
}
Step-Inv {q} (takes k e h) v = record {
  rest = replicate k (terminal_size q.size);
  in_order =
      append_assoc q.taken (terminal_size q.size ∷ []) (replicate k (terminal_size q.size))
      ∙ (ap (λ (l : List TerminalSize). q.taken ++ l)
            (sym (v.exact h ∙ ap (λ (n : ℕ). replicate n (terminal_size q.size)) e))
          ∙ v.in_order);
  exact = λ x. refl;
  unfinished = v.unfinished;
  uncrashed = v.uncrashed;
}
Step-Inv {q} (recovers k e h) v = record {
  rest = v.rest;
  in_order = v.in_order;
  exact = λ x. cc;
  unfinished = v.unfinished;
  uncrashed = v.uncrashed;
}
Step-Inv {q} (finishes h) v = record {
  rest = v.rest;
  in_order = v.in_order;
  exact = v.exact;
  unfinished = λ x. h;
  uncrashed = v.uncrashed;
}
Step-Inv {q} (closes h) v = record {
  rest = v.rest;
  in_order = v.in_order;
  exact = λ x. cc;
  unfinished = λ x. refl;
  uncrashed = λ x. refl;
}
Step-Inv {q} (closes_again h) v = record {
  rest = v.rest;
  in_order = v.in_order;
  exact = v.exact;
  unfinished = v.unfinished;
  uncrashed = λ x. h;
}

Reach-Inv : {q : Queue} → Reach new_queue q → Inv q
unfolding thrice
Reach-Inv here = record {
  rest = [];
  in_order = refl;
  exact = λ h. refl;
  unfinished = λ h. cc;
  uncrashed = λ h. cc;
}
Reach-Inv (next r s) = Step-Inv s (Reach-Inv r)

-- The stream is given the sizes of the calls in their order, each three times: exactly these while
-- the terminal is not closed and no call is running, and at all times a beginning of them. Only after
-- `Exit` does the stream see the end of the sizes.
pub sizes_thrice :
    (q : Queue)
    → Reach new_queue q
    → ((rest : List TerminalSize) × (q.taken ++ rest ≡ thrice q.asked))
      × (q.closed ≡ false → q.left ≡ 0 → q.taken ≡ thrice q.asked)
      × (q.finished ≡ true → q.closed ≡ true)
sizes_thrice q r =
    let v = Reach-Inv r in
    (
      (v.rest, v.in_order),
      (λ h e.
          sym (append-nil q.taken)
          ∙ (ap (λ (l : List TerminalSize). q.taken ++ l)
                (sym (v.exact h ∙ ap (λ (n : ℕ). replicate n (terminal_size q.size)) e))
              ∙ v.in_order)),
      v.unfinished,
    )

-- Whatever size is asked for, the size that is sent fits in sixteen bits; it is the one that was
-- asked for exactly if that is not negative and fits.
pub terminal_size_lem :
    (width height : ℤ)
    → let s = terminal_size (width, height) in
      (s.width < 65536)
      × (s.height < 65536)
      × ((pos s.width ≡ width) ↔ ((n : ℕ) × (width ≡ pos n) × (n < 65536)))
      × ((pos s.height ≡ height) ↔ ((n : ℕ) × (height ≡ pos n) × (n < 65536)))
unfolding terminal_size
terminal_size_lem width height = (uint16_small width, uint16_small height, kept width, kept height)
  where
    uint16_small : (i : ℤ) → uint16 i < 65536
    uint16_small (pos n) = omega arith
    uint16_small (negsuc n) = omega arith

    pos_inj : {m n : ℕ} → pos m ≡ pos n → m ≡ n
    pos_inj e = cc

    kept : (i : ℤ) → (pos (uint16 i) ≡ i) ↔ ((n : ℕ) × (i ≡ pos n) × (n < 65536))
    kept (pos n) = (
      (λ e. (n, refl, (let same = pos_inj e in omega arith))),
      (λ h. (let same = pos_inj h.1 in let l = h.2 in ap pos (omega arith))),
    )
    kept (negsuc n) = ((λ e. cc), (λ h. cc))
