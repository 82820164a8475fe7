-- ===== src/Docker/LogParser.antt =====
-- container/docker/log_parser.go: `logReadCloser.Read`, which takes the frames of Docker's log
-- stream apart. The reader below it is a parameter: a call gets the buffer that it filled, the
-- number of bytes and the error. `int64` does not wrap: a length is below 2 ^ 32.
mod Frames
mod Spans
mod Tests
use container_web_tty.Base.{
  ltb, leb, ◌==◌, if◌then◌else◌, length, get_elem?, take, drop, is_empty, Bytes, ℕ, zero, suc, ◌+◌,
  ◌-◌, ◌*◌, min, Bool, false, not, ◌&&◌, ◌||◌, Option, none, some, [], ◌∷◌, ◌++◌,
}

pub record LogReadCloser : Type 0 where
  pub bs_left : ℕ
  pub prev_header : Bytes

-- `parseContainerLog` of a reader.
abbrev pub parse_container_log : LogReadCloser
parse_container_log = record { bs_left = 0; prev_header = [] }

-- `bs[i]`, where the code has tested that `i` is in range.
abbrev pub byte : Bytes → ℕ → ℕ
byte bs i = elim (get_elem? bs i) [ some b ↦ b | none ↦ 0 ]

-- `bs[from:to]`, in range.
abbrev pub slice : Bytes → ℕ → ℕ → Bytes
slice bs from to = take (to - from) (drop from bs)

abbrev pub ends_line : Bytes → Bool
ends_line [] = false
ends_line (c ∷ []) = c == b'\n'
ends_line (c ∷ d ∷ bs) = ends_line (d ∷ bs)

-- `_makeLine`: a line feed at the end gets its carriage return.
unfoldable pub make_line : Bytes → Bytes
make_line bs = if ends_line bs then bs ++ b'\r' ∷ [] else bs

-- The number that the hexadecimal digits of four bytes make.
abbrev pub hex_value : Bytes → ℕ
hex_value header =
    ((byte header 0 * 256 + byte header 1) * 256 + byte header 2) * 256 + byte header 3

-- How the loop ends: at a `break`, with the bytes collected, at a panic, or never.
pub data Scan : Type 0 where
  out_of_fuel : Scan
  crashes : Scan
  stops : Bytes → LogReadCloser → Scan

-- The loop over `p[start:n]`.
unfoldable pub scan : ℕ → Bytes → ℕ → ℕ → Bytes → LogReadCloser → Scan
scan zero p n start bs rc = out_of_fuel
scan (suc fuel) p n start bs rc =
    let msg_len = hex_value (slice p (start + 4) (start + 8)) in
    let body = start + 8 in
    let next =
      scan fuel p n (body + msg_len) (bs ++ make_line (slice p body (body + msg_len))) rc in
    if ltb n (start + 8)
    then if ltb n start then crashes else stops bs (record rc { prev_header = slice p start n })
    else if not (byte p start == 1) && not (byte p start == 2)
    then stops bs rc
    else if ltb n (body + msg_len)
    then stops (bs ++ make_line (drop body p)) (record rc { bs_left = msg_len - (n - body) })
    else next

-- What `Read` returns: the caller's buffer, the number of bytes, the error and the new state.
pub data ReadResult : Type 0 where
  no_end : ReadResult
  panics : ReadResult
  returns : Bytes → ℕ → Option Bytes → LogReadCloser → ReadResult

-- `copy(targetBytes, bs)` and its result.
unfoldable pub copy_out : Bytes → Scan → ReadResult
copy_out target out_of_fuel = no_end
copy_out target crashes = panics
copy_out target (stops bs rc) =
    returns (take (length target) bs ++ drop (length bs) target) (min (length target) (length bs))
      none rc

-- Some byte of a frame header that should be zero is not.
abbrev pub is_raw : Bytes → ℕ → Bool
is_raw target n =
    leb 4 n && (not (byte target 1 == 0) || not (byte target 2 == 0) || not (byte target 3 == 0))

-- The round of `Read` that parses: with a header left over, inside a message, or at a frame.
unfoldable pub parse : Bytes → ℕ → LogReadCloser → ReadResult
parse target n rc =
    let p = rc.prev_header ++ target in
    if not (is_empty rc.prev_header)
    then copy_out target (scan (suc (length p)) p (length p) 0 [] (record rc { prev_header = [] }))
    else if ltb 0 rc.bs_left
    then if ltb (length target) rc.bs_left
      then panics
      else copy_out target (
          scan (suc n) target n rc.bs_left (make_line (take rc.bs_left target))
            (record rc { bs_left = 0 }))
    else copy_out target (scan (suc n) target n 0 [] rc)

unfoldable pub read : Bytes → ℕ → Option Bytes → LogReadCloser → ReadResult
read target n (some err) rc = returns target n (some err) rc
read target n none rc = if is_raw target n then returns target n none rc else parse target n rc
