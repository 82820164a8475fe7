-- ===== src/Grpc/Tty/Output.antt =====
-- container/grpc/grpc_tty.go and proxy/server.go: the output of a remote terminal, from the reads of
-- the server to those of `Read`.
use container_web_tty.Base.{
  leb, if◌then◌else◌, le→leb, length, get_elem?, take, drop, length-append, length-take,
  length-drop, take_of_length-le, take-append_length, Bytes, ℕ, ◌≤◌, ◌<◌, ◌≡◌, refl, ap, ◌∙◌, ◌⊎◌,
  inl, inr, Option, none, some, List, [], ◌∷◌, ◌++◌, map, arith,
}
use container_web_tty.Base.{All}
use container_web_tty.Grpc.Tty.{read}
use container_web_tty.Proxy.Streams.{Round, fine, end_of_file, other, send_all}

-- `p[:n]`, `none` for the panic of a count beyond the buffer.
unfoldable pub slice : ℕ → Bytes → Option Bytes
slice n p = if leb n (length p) then some (take n p) else none

-- A reader with one buffer, until `Read` returns an error, as the loops above it use the result.
unfoldable pub read_loop : Bytes → List (Bytes ⊎ Bytes) → List (Option Bytes)
unfolding read slice
read_loop p [] = []
read_loop p (r ∷ rest) =
    let ((n, err), p') = read p r in
    let others = read_loop p' rest in elim err [ none ↦ slice n p' ∷ others | some e ↦ [] ]

-- What `Recv` gives: the sent outputs in their order, and the end behind them.
unfoldable pub received : Bytes → List Bytes → List (Bytes ⊎ Bytes)
received e [] = inr e ∷ []
received e (out ∷ outs) = inl out ∷ received e outs

-- What the server reads from its terminal before the end of the file.
unfoldable pub until_end : List Round → List Bytes
until_end [] = []
until_end (r ∷ rest) =
    let others = until_end rest in elim r.read_fault [ end_of_file ↦ [] | _ ↦ r.bytes ∷ others ]

-- Each read fits the server's buffer of 1,024 bytes, and each send succeeds.
abbrev pub AllSent : List Round → Type 0
AllSent [] = Unit
AllSent (r ∷ rest) = (length r.bytes ≤ 1024) × (r.send_fault ≡ fine) × AllSent rest

-- An output that fits the buffer stands whole at its front.
read-front :
    (p out : Bytes) → length out ≤ length p → (read p (inl out)).1 ≡ out ++ drop (length out) p
unfolding read
read-front p out h = rw (take_of_length-le (length p) out h) refl

length-read : (p out : Bytes) → length out ≤ length p → length (read p (inl out)).1 ≡ length p
length-read p out h =
    ap length (read-front p out h)
    ∙ omega (arith, length-append out (drop (length out) p), length-drop (length out) p)

slice-read :
    (p out : Bytes) → length out ≤ length p → slice (length out) (read p (inl out)).1 ≡ some out
unfolding slice
slice-read p out h =
    let fits =
      le→leb (length out) (length (read p (inl out)).1) (omega (arith, length-read p out h)) in
    rw fits (
      ap some (
        ap (take (length out)) (read-front p out h) ∙ take-append_length out (drop (length out) p)))

read_loop-received :
    (n : ℕ) (p e : Bytes) (outs : List Bytes)
    → length p ≡ n
    → All (λ out. length out ≤ n) outs
    → read_loop p (received e outs) ≡ map some outs
unfolding read_loop received
read_loop-received n p e [] same h = refl
read_loop-received n p e (out ∷ outs) same (fits, h) =
    let short : length out ≤ length p = omega arith in
    rw (slice-read p out short) (
      ap (◌∷◌ (some out))
        (read_loop-received n (read p (inl out)).1 e outs (length-read p out short ∙ same) h))

send_all-until_end : (rounds : List Round) → AllSent rounds → send_all rounds ≡ until_end rounds
unfolding send_all until_end
send_all-until_end [] h = refl
send_all-until_end (r ∷ rest) (l, s, h) = let others = send_all-until_end rest h in ground arith

until_end-fits :
    (n : ℕ) (rounds : List Round)
    → 1024 ≤ n
    → AllSent rounds
    → All (λ out. length out ≤ n) (until_end rounds)
unfolding until_end
until_end-fits n [] l h = tt
until_end-fits n (r ∷ rest) l (b, s, h) =
    let others = until_end-fits n rest l h in
    let fits : length r.bytes ≤ n = omega arith in
    elim r.read_fault
      as (λ f.
        All (λ out. length out ≤ n) (elim f [ end_of_file ↦ [] | _ ↦ r.bytes ∷ until_end rest ])) [
          | fine ↦ (fits, others)
          | end_of_file ↦ tt
          | other ↦ (fits, others)
        ]

-- Where no read of the server exceeds its buffer of 1,024 bytes and none of its sends fails, a
-- reader of the remote terminal with one buffer of at least 1,024 bytes reads exactly what the
-- server reads from its own terminal before the end of the file, piece by piece, and no slice of
-- the buffer panics.
pub remote_output :
    (rounds : List Round) (p e : Bytes)
    → AllSent rounds
    → 1024 ≤ length p
    → read_loop p (received e (send_all rounds)) ≡ map some (until_end rounds)
remote_output rounds p e h l = rw (send_all-until_end rounds h) (
    read_loop-received (length p) p e (until_end rounds) refl
      (until_end-fits (length p) rounds l h))

-- A shorter buffer panics at the first output that does not fit.
pub short_buffer :
    (p out : Bytes) (rest : List (Bytes ⊎ Bytes))
    → length p < length out
    → get_elem? (read_loop p (inl out ∷ rest)) 0 ≡ some none
unfolding read_loop read slice
short_buffer p out rest h = ap some (
    ground (
      arith,
      length-take (length p) out,
      length-drop (length out) p,
      length-append (take (length p) out) (drop (length out) p),
    ))
