-- ===== src/Terminal/Resize.antt =====
-- `ResizeTerminal`: how often the size is sent, and which error is returned.
use container_web_tty.Base.{
  ltb, ◌==◌, ltb→lt, ==_iff, Bool-cases, Option-cases, Bytes, ℕ, zero, suc, ◌+◌, ◌-◌, ◌≤◌, ◌<◌, ◌≡◌,
  refl, sym, ◌≢◌, inl, inr, Option, none, arith,
}
use container_web_tty.Terminal.{retry, resize_terminal}

-- What is returned after the rounds from `i` on.
record Tried (resize : ℕ → Option Bytes) (left i : ℕ) (err e : Option Bytes) (n : ℕ) : Type 0 where
  more : i ≤ n
  moved : 0 < left → i < n
  bounded : n ≤ i + left
  stuck : n ≡ i → e ≡ err
  last : i < n → e ≡ resize (n - 1)
  gave_up : n < i + left → e ≡ none
  before : (j : ℕ) → i ≤ j → j + 1 < n → resize j ≢ none

after_failure :
    (resize : ℕ → Option Bytes) (left i n : ℕ) (err e : Option Bytes)
    → resize i ≢ none
    → Tried resize left (i + 1) (resize i) e n
    → Tried resize (suc left) i err e n
after_failure resize left i n err e failed t = record {
  more = omega (arith, t.more);
  moved = λ l. omega (arith, t.more);
  bounded = omega (arith, t.bounded);
  stuck = λ same. absurd (omega (arith, t.more));
  last = λ l. elim (Bool-cases (ltb (i + 1) n)) [
    | inl further ↦ t.last (ltb→lt (i + 1) n further)
    | inr ended ↦
        let same : n ≡ i + 1 = ground (arith, t.more) in
        let back : n - 1 ≡ i = omega arith in rw back (t.stuck same)
  ];
  gave_up = λ l. t.gave_up (omega arith);
  before = λ j l k. elim (Bool-cases (i == j)) [
    | inl same ↦ rw (← (==_iff i j).0 same) failed
    | inr other ↦ t.before j (ground arith) k
  ];
}

retry-Tried :
    (left i : ℕ) (resize : ℕ → Option Bytes) (err : Option Bytes)
    → let (e, n) = retry left i resize err in Tried resize left i err e n
unfolding retry
retry-Tried zero i resize err = record {
  more = omega arith;
  moved = λ l. absurd (omega arith);
  bounded = omega arith;
  stuck = λ l. refl;
  last = λ l. absurd (omega arith);
  gave_up = λ l. absurd (omega arith);
  before = λ j l k. absurd (omega arith);
}
retry-Tried (suc left) i resize err =
    let back : (i + 1) - 1 ≡ i = omega arith in
    elim (Option-cases (resize i)) [
      | inl e ↦
          rw (e, retry)
            (record {
              more = omega arith;
              moved = λ l. omega arith;
              bounded = omega arith;
              stuck = λ l. absurd (omega arith);
              last = λ l. rw back (sym e);
              gave_up = λ l. refl;
              before = λ j l k. absurd (omega arith);
            })
      | inr (x, e) ↦
          let t = retry-Tried left (i + 1) resize (resize i) in
          rw (e, retry) (after_failure resize left i _ err _ (λ h. cc) t)
    ]

-- The size is sent until it is taken, three times at most: there is no error exactly if the last
-- round had none, and every round before it failed.
pub resize_terminal_lem :
    (resize : ℕ → Option Bytes)
    → let (err, n) = resize_terminal resize in
      (1 ≤ n)
      × (n ≤ 3)
      × (err ≡ resize (n - 1))
      × (n < 3 → err ≡ none)
      × ((j : ℕ) → j + 1 < n → resize j ≢ none)
unfolding resize_terminal
resize_terminal_lem resize =
    let t = retry-Tried 3 0 resize none in
    (
      omega (arith, t.moved (omega arith)),
      omega (arith, t.bounded),
      t.last (t.moved (omega arith)),
      (λ l. t.gave_up (omega arith)),
      λ j l. t.before j (omega arith) l,
    )
