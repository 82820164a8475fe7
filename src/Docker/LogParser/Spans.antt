-- ===== src/Docker/LogParser/Spans.antt =====
-- container/docker/log_parser.go: messages that one read does not bring whole.
use container_web_tty.Base.{
  ltb, ◌==◌, length, take, drop, length-append, take_of_length-le, Bytes, ℕ, zero, suc, ◌+◌, ◌-◌,
  ◌^◌, ◌≤◌, ◌<◌, min, ◌≡◌, refl, ap, ◌∙◌, ◌≢◌, ◌⊎◌, true, false, not, ◌&&◌, Option, none, some,
  List, [], ◌∷◌, ◌++◌, arith,
}
use container_web_tty.Docker.LogParser.{
  returns, parse_container_log, LogReadCloser, slice, make_line, hex_value, Scan, stops,
  out_of_fuel, crashes, scan, panics, no_end, copy_out, is_raw, parse, read,
}
use container_web_tty.Docker.LogParser.Frames.{
  scan_frames, length-make_line, length-lines, lines, AllFrames, Frame, header, encode_all,
  read_length, read_stream, drop-append_past,
}

-- With fuel for every byte the loop ends.
scan_ends :
    (fuel : ℕ) (p : Bytes) (n start : ℕ) (bs : Bytes) (rc : LogReadCloser)
    → 0 < fuel
    → n < fuel + start
    → scan fuel p n start bs rc ≢ out_of_fuel
unfolding scan
scan_ends zero p n start bs rc pos h = absurd (omega arith)
scan_ends (suc fuel) p n start bs rc pos h =
    let body = start + 8 in
    let msg_len = hex_value (slice p (start + 4) (start + 8)) in
    ground (
      arith,
      scan_ends fuel p n (body + msg_len) (bs ++ make_line (slice p body (body + msg_len))) rc,
    )

copy_out_ends : (target : Bytes) (r : Scan) → r ≢ out_of_fuel → copy_out target r ≢ no_end
unfolding copy_out
copy_out_ends target out_of_fuel h = absurd (h refl)
copy_out_ends target crashes h = λ e. cc
copy_out_ends target (stops bs rc) h = λ e. cc

-- `Read` returns or panics on every buffer, count and state: the loop's fuel is enough.
pub read_ends :
    (target : Bytes) (n : ℕ) (err : Option Bytes) (rc : LogReadCloser)
    → read target n err rc ≢ no_end
unfolding read parse
read_ends target n (some err) rc = λ e. cc
read_ends target n none rc =
    let p = rc.prev_header ++ target in
    ground (
      arith,
      copy_out_ends target
          (scan (suc (length p)) p (length p) 0 [] (record rc { prev_header = [] }))
          (scan_ends (suc (length p)) p (length p) 0 [] _ (omega arith) (omega arith)),
      copy_out_ends target
          (scan (suc n) target n rc.bs_left (make_line (take rc.bs_left target))
            (record rc { bs_left = 0 }))
          (scan_ends (suc n) target n rc.bs_left (make_line (take rc.bs_left target)) _
            (omega arith) (omega arith)),
      copy_out_ends target (scan (suc n) target n 0 [] rc)
          (scan_ends (suc n) target n 0 [] rc (omega arith) (omega arith)),
    )

-- While more of a message is missing than a read brings, and no header is left over, the next read
-- that is taken for a frame panics: it slices the buffer, or the remembered header, out of range.
pub read_long_message :
    (target : Bytes) (n : ℕ) (rc : LogReadCloser)
    → rc.prev_header ≡ []
    → n < rc.bs_left
    → is_raw target n ≡ false
    → read target n none rc ≡ panics
unfolding read parse scan copy_out
read_long_message target n rc h l r =
    let some_left : ltb 0 rc.bs_left ≡ true = ground arith in
    let past : ltb n rc.bs_left ≡ true = ground arith in
    let end : ltb n (rc.bs_left + 8) ≡ true = ground arith in
    rw (r, h, some_left, end, past) (ground arith)

-- A read that fills the buffer and ends inside a message.
module _ (fs : List Frame) (stream len : ℕ) (part : Bytes) (known : (stream ≡ 1) ⊎ (stream ≡ 2))
    (fits : len < 2 ^ 32) (cut : length part < len) where
  abbrev target : Bytes
  target = encode_all fs ++ (header stream len ++ part)

  scan_cut :
      (fuel : ℕ) (bs : Bytes) (rc : LogReadCloser)
      → scan (suc fuel) target (length target) (length (encode_all fs)) bs rc
        ≡ stops (bs ++ make_line part) (record rc { bs_left = len - length part })
  unfolding scan
  scan_cut fuel bs rc =
      let size = length-append (encode_all fs) (header stream len ++ part) in
      let inside : ltb (length target) (length (encode_all fs) + 8) ≡ false = ground arith in
      let beyond : ltb (length target) (length (encode_all fs) + 8 + len) ≡ true = ground arith in
      let stdio : (not (stream == 1) && not (stream == 2)) ≡ false = ground (arith, known) in
      let left : len - (length target - (length (encode_all fs) + 8)) ≡ len - length part =
        omega arith in
      rw (
        read_length stream len known fits (encode_all fs) part,
        read_stream stream len known fits (encode_all fs) part,
        inside,
        beyond,
        stdio,
        left,
        drop-append_past 8 (encode_all fs) (header stream len ++ part),
      )

not_raw_cut :
    (fs : List Frame) (stream len : ℕ) (ys : Bytes) (n : ℕ)
    → is_raw (encode_all fs ++ (header stream len ++ ys)) n ≡ false
not_raw_cut [] stream len ys n = ground arith
not_raw_cut (f ∷ fs) stream len ys n = ground arith

-- A read that fills the buffer with whole frames and the beginning of one more returns the lines of
-- the frames and what it has of the last message, and remembers how much of that is missing.
pub read_cut :
    (fs : List Frame) (stream len : ℕ) (part : Bytes)
    → AllFrames fs
    → (stream ≡ 1) ⊎ (stream ≡ 2)
    → len < 2 ^ 32
    → length part < len
    → let target = encode_all fs ++ (header stream len ++ part) in
      let out = lines fs ++ make_line part in
      read target (length target) none parse_container_log
      ≡ returns
          (out ++ drop (length out) target)
          (length out)
          none
          (record { bs_left = len - length part; prev_header = [] })
unfolding read parse copy_out
read_cut fs stream len part h known fits cut =
    let tail = header stream len ++ part in
    let target = encode_all fs ++ tail in
    let n = length target in
    let out = lines fs ++ make_line part in
    let size = length-append (encode_all fs) tail in
    let out_size = length-append (lines fs) (make_line part) in
    let room : length out ≤ n = omega (arith, length-lines fs, length-make_line part) in
    let count : min n (length out) ≡ length out = omega arith in
    let fuel : suc n ≡ length fs + suc (n - length fs) = omega (arith, length-lines fs) in
    let scanned =
      ap (λ k. scan k target n 0 [] parse_container_log) fuel
      ∙ scan_frames fs (suc (n - length fs)) n [] tail [] parse_container_log h (omega arith)
      ∙ scan_cut fs stream len part known fits cut (n - length fs) (lines fs) parse_container_log in
    rw (not_raw_cut fs stream len part n, scanned, copy_out, count, take_of_length-le n out room)
