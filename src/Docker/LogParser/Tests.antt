-- ===== src/Docker/LogParser/Tests.antt =====
-- Tests of container/docker/log_parser.go.
use container_web_tty.Base.{
  length, drop, str, has_prefix, ◌-◌, ◌≡◌, refl, ◌≢◌, inl, inr, none, List, [], ◌∷◌, ◌++◌, arith,
}
use container_web_tty.Docker.LogParser.{
  read, returns, panics, no_end, parse_container_log, make_line, LogReadCloser,
}
use container_web_tty.Docker.LogParser.Frames.{Frame, encode_all, lines, header, read-encode_all}
use container_web_tty.Docker.LogParser.Spans.{read_ends, read_long_message, read_cut}

abbrev frames : List Frame
frames =
    record { stream = 1; text = str "hello" ++ b'\n' ∷ [] }
    ∷ record { stream = 2; text = str "oops" }
    ∷ []

read-encode_all_example :
    let target = encode_all frames ++ 0 ∷ 0 ∷ [] in
    read target (length (encode_all frames)) none parse_container_log
    ≡ returns
        (lines frames ++ drop (length (lines frames)) target)
        (length (lines frames))
        none
        parse_container_log
read-encode_all_example = read-encode_all frames (0 ∷ 0 ∷ []) (
  record { known = inl refl; fits = omega arith },
  (record { known = inr refl; fits = omega arith }, tt),
)

read_ends_example : read (encode_all frames) 7 none parse_container_log ≢ no_end
read_ends_example = read_ends (encode_all frames) 7 none parse_container_log

abbrev inside : LogReadCloser
inside = record { bs_left = 100; prev_header = [] }

read_long_message_test : read (str "abc") 3 none inside ≡ panics
unfolding has_prefix
read_long_message_test = read_long_message (str "abc") 3 inside refl (omega arith) refl

read_cut_example :
    let target = encode_all frames ++ (header 1 9 ++ str "part") in
    let out = lines frames ++ make_line (str "part") in
    read target (length target) none parse_container_log
    ≡ returns
        (out ++ drop (length out) target)
        (length out)
        none
        (record { bs_left = 9 - 4; prev_header = [] })
read_cut_example =
    read_cut frames 1 9 (str "part")
      (
        record { known = inl refl; fits = omega arith },
        (record { known = inr refl; fits = omega arith }, tt),
      )
      (inl refl) (omega arith) (omega arith)
