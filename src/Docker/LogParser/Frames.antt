-- ===== src/Docker/LogParser/Frames.antt =====
-- container/docker/log_parser.go against the format of Docker's log stream: a frame is a stream
-- number, three zero bytes, the length in four bytes, and the text.
use mathlib.Core.List.{append-nil, append_assoc}
use container_web_tty.Base.{
  ltb, ◌==◌, length, take, drop, length-append, take_of_length-le, take-append_length, Bytes, ℕ,
  suc, ◌+◌, ◌-◌, ◌*◌, ◌/◌, ◌%◌, ◌^◌, ◌≤◌, ◌<◌, min, ◌≡◌, refl, sym, ap, ◌∙◌, ◌⊎◌, true, false, not,
  ◌&&◌, none, List, [], ◌∷◌, ◌++◌, arith,
}
use container_web_tty.Docker.LogParser.{
  returns, is_raw, parse_container_log, copy_out, parse, stops, read, LogReadCloser, scan, byte,
  slice, make_line, hex_value,
}

pub record Frame : Type 0 where
  pub stream : ℕ
  pub text : Bytes

-- Standard output or standard error, and a length that four bytes hold.
pub record IsFrame (f : Frame) : Type 0 where
  pub known : (f.stream ≡ 1) ⊎ (f.stream ≡ 2)
  pub fits : length f.text < 2 ^ 32

abbrev pub AllFrames : List Frame → Type 0
AllFrames [] = Unit {0}
AllFrames (f ∷ fs) = IsFrame f × AllFrames fs

abbrev pub header : ℕ → ℕ → Bytes
header stream n =
    stream ∷ 0 ∷ 0 ∷ 0 ∷ (n / 16777216 % 256) ∷ (n / 65536 % 256) ∷ (n / 256 % 256) ∷ (n % 256) ∷ []

abbrev pub encode : Frame → Bytes
encode f = header f.stream (length f.text) ++ f.text

abbrev pub encode_all : List Frame → Bytes
encode_all [] = []
encode_all (f ∷ fs) = encode f ++ encode_all fs

abbrev pub lines : List Frame → Bytes
lines [] = []
lines (f ∷ fs) = make_line f.text ++ lines fs

pub drop-append_past : (k : ℕ) (pre ys : Bytes) → drop (length pre + k) (pre ++ ys) ≡ drop k ys
drop-append_past k [] ys = let e : 0 + k ≡ k = omega arith in rw e
drop-append_past k (x ∷ pre) ys =
    let e : suc (length pre) + k ≡ suc (length pre + k) = omega arith in
    rw e (drop-append_past k pre ys)

get_elem?-append_past : (pre : Bytes) (y : ℕ) (ys : Bytes) → byte (pre ++ y ∷ ys) (length pre) ≡ y
get_elem?-append_past [] y ys = refl
get_elem?-append_past (x ∷ pre) y ys = get_elem?-append_past pre y ys

slice-append_past :
    (a b : ℕ) (pre ys : Bytes) → slice (pre ++ ys) (length pre + a) (length pre + b) ≡ slice ys a b
slice-append_past a b pre ys =
    let e : length pre + b - (length pre + a) ≡ b - a = omega arith in
    rw (e, drop-append_past a pre ys)

hex_value-header :
    (n : ℕ) (s : ℕ) (ys : Bytes) → n < 2 ^ 32 → hex_value (slice (header s n ++ ys) 4 8) ≡ n
hex_value-header n s ys h = omega arith

module _ (s n : ℕ) (known : (s ≡ 1) ⊎ (s ≡ 2)) (fits : n < 2 ^ 32) (pre ys : Bytes) where
  abbrev input : Bytes
  input = pre ++ (header s n ++ ys)

  pub read_length : hex_value (slice input (length pre + 4) (length pre + 8)) ≡ n
  read_length = rw (slice-append_past 4 8 pre (header s n ++ ys)) (hex_value-header n s ys fits)

  pub read_stream : byte input (length pre) ≡ s
  read_stream = get_elem?-append_past pre s _

  read_body : slice input (length pre + 8) (length pre + 8 + n) ≡ take n ys
  read_body =
      let e : length pre + 8 + n - (length pre + 8) ≡ n = omega arith in
      rw (e, drop-append_past 8 pre (header s n ++ ys))

-- One frame that ends within the `n` bytes.
scan_frame :
    (fuel n : ℕ) (f : Frame) (pre ys bs : Bytes) (rc : LogReadCloser)
    → IsFrame f
    → length pre + length (encode f) ≤ n
    → scan (suc fuel) (pre ++ (encode f ++ ys)) n (length pre) bs rc
      ≡ scan fuel
          (pre ++ (encode f ++ ys))
          n
          (length pre + 8 + length f.text)
          (bs ++ make_line f.text)
          rc
unfolding scan
scan_frame fuel n f pre ys bs rc h le =
    let len = read_length f.stream (length f.text) h.known h.fits pre (f.text ++ ys) in
    let stream = read_stream f.stream (length f.text) h.known h.fits pre (f.text ++ ys) in
    let body =
      read_body f.stream (length f.text) h.known h.fits pre (f.text ++ ys)
      ∙ take-append_length f.text ys in
    let size = length-append (header f.stream (length f.text)) f.text in
    let fresh : ltb n (length pre + 8) ≡ false = ground arith in
    let fits : ltb n (length pre + 8 + length f.text) ≡ false = ground arith in
    let stdio : (not (f.stream == 1) && not (f.stream == 2)) ≡ false = ground (arith, h.known) in
    rw (len, stream, body, fresh, fits, stdio)

-- The loop over whole frames goes on behind them, with their lines.
pub scan_frames :
    (fs : List Frame) (fuel n : ℕ) (pre ys bs : Bytes) (rc : LogReadCloser)
    → AllFrames fs
    → length pre + length (encode_all fs) ≤ n
    → scan (length fs + fuel) (pre ++ (encode_all fs ++ ys)) n (length pre) bs rc
      ≡ scan fuel
          (pre ++ (encode_all fs ++ ys))
          n
          (length (pre ++ encode_all fs))
          (bs ++ lines fs)
          rc
scan_frames [] fuel n pre ys bs rc h le =
    let e : 0 + fuel ≡ fuel = omega arith in rw (e, append-nil pre, append-nil bs)
scan_frames (f ∷ fs) fuel n pre ys bs rc h le =
    let size = length-append (encode f) (encode_all fs) in
    let past : length pre + 8 + length f.text ≡ length (pre ++ encode f) = omega (
      arith,
      length-append pre (encode f),
      length-append (header f.stream (length f.text)) f.text,
    ) in
    let e : suc (length fs) + fuel ≡ suc (length fs + fuel) = omega arith in
    let whole : (encode f ++ encode_all fs) ++ ys ≡ encode f ++ (encode_all fs ++ ys) =
      append_assoc (encode f) (encode_all fs) ys in
    let apart : pre ++ (encode f ++ (encode_all fs ++ ys))
        ≡ (pre ++ encode f) ++ (encode_all fs ++ ys) =
      sym (append_assoc pre (encode f) (encode_all fs ++ ys)) in
    rw (e, whole)
      (scan_frame (length fs + fuel) n f pre (encode_all fs ++ ys) bs rc h.0 (omega arith)
        ∙ rw (past, apart)
            (scan_frames fs fuel n (pre ++ encode f) ys (bs ++ make_line f.text) rc h.1
                (omega (arith, length-append pre (encode f)))
              ∙ rw (
                append_assoc pre (encode f) (encode_all fs),
                append_assoc bs (make_line f.text) (lines fs),
              )))

pub length-make_line : (bs : Bytes) → length (make_line bs) ≤ length bs + 1
unfolding make_line
length-make_line bs = ground (arith, length-append bs (b'\r' ∷ []))

-- The carriage returns that are added take less room than the headers that are removed.
pub length-lines : (fs : List Frame) → length (lines fs) + 7 * length fs ≤ length (encode_all fs)
length-lines [] = omega arith
length-lines (f ∷ fs) = omega (
  arith,
  length-lines fs,
  length-make_line f.text,
  length-append (make_line f.text) (lines fs),
  length-append (encode f) (encode_all fs),
  length-append (header f.stream (length f.text)) f.text,
)

-- The loop ends behind the last frame.
scan_end :
    (fuel n : ℕ) (p bs : Bytes) (rc : LogReadCloser)
    → scan (suc fuel) p n n bs rc ≡ stops bs (record rc { prev_header = [] })
unfolding scan
scan_end fuel n p bs rc =
    let more : ltb n (n + 8) ≡ true = ground arith in
    let inside : ltb n n ≡ false = ground arith in
    let nothing : n - n ≡ 0 = omega arith in rw (more, inside, nothing)

scan_all :
    (fs : List Frame) (ys : Bytes) (rc : LogReadCloser)
    → AllFrames fs
    → let n = length (encode_all fs) in
      scan (suc n) (encode_all fs ++ ys) n 0 [] rc
      ≡ stops (lines fs) (record rc { prev_header = [] })
scan_all fs ys rc h =
    let n = length (encode_all fs) in
    let fuel : suc n ≡ length fs + suc (n - length fs) = omega (arith, length-lines fs) in
    ap (λ k. scan k (encode_all fs ++ ys) n 0 [] rc) fuel
    ∙ scan_frames fs (suc (n - length fs)) n [] ys [] rc h (omega arith)
    ∙ scan_end (n - length fs) n (encode_all fs ++ ys) (lines fs) rc

not_raw :
    (fs : List Frame) (ys : Bytes) → is_raw (encode_all fs ++ ys) (length (encode_all fs)) ≡ false
not_raw [] ys = refl
not_raw (f ∷ fs) ys = ground arith

-- A read that brings whole frames, with anything behind them in the buffer, returns their texts in
-- order, each closed line with a carriage return, none lost for want of room, and the parser is
-- where it was, between two frames.
pub read-encode_all :
    (fs : List Frame) (rest : Bytes)
    → AllFrames fs
    → let target = encode_all fs ++ rest in
      read target (length (encode_all fs)) none parse_container_log
      ≡ returns
          (lines fs ++ drop (length (lines fs)) target)
          (length (lines fs))
          none
          parse_container_log
unfolding read parse copy_out
read-encode_all fs rest h =
    let room : length (lines fs) ≤ length (encode_all fs ++ rest) =
      omega (arith, length-lines fs, length-append (encode_all fs) rest) in
    let count : min (length (encode_all fs ++ rest)) (length (lines fs)) ≡ length (lines fs) =
      omega arith in
    rw (
      not_raw fs rest,
      scan_all fs rest parse_container_log h,
      copy_out,
      count,
      take_of_length-le (length (encode_all fs ++ rest)) (lines fs) room,
    )
