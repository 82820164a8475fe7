-- ===== src/Grpc/Pipe/Tests.antt =====
-- Tests of the pipe of container/grpc/grpc.go's `Logs`.
use container_web_tty.Base.{take, concat, str, ◌≡◌, refl, List, [], ◌∷◌}
use container_web_tty.Proxy.Streams.{fine, end_of_file, Round, send_logs}
use container_web_tty.Grpc.Pipe.{copy, delivered, logged, remote_logs}

-- Two reads, and one that brings its bytes with the end of the file, which are lost.
abbrev rounds : List Round
rounds =
    record { bytes = str "a\n"; read_fault = fine; send_fault = fine }
    ∷ record { bytes = str "b\n"; read_fault = fine; send_fault = fine }
    ∷ record { bytes = str "c\n"; read_fault = end_of_file; send_fault = fine }
    ∷ []

remote_logs_example : copy 5 (delivered (str "EOF") (send_logs rounds).0) ≡ take 5 (logged rounds)
remote_logs_example = remote_logs rounds 5 (str "EOF") (refl, (refl, (refl, tt)))

last_bytes_lost : concat (logged rounds) ≡ str "a\nb\n"
unfolding logged
last_bytes_lost = refl
