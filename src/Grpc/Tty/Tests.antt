-- ===== src/Grpc/Tty/Tests.antt =====
-- Tests of container/grpc/grpc_tty.go.
use container_web_tty.Base.{
  ◌==◌, if◌then◌else◌, get_elem?, take, replicate, length-replicate, Bytes, str, ℕ, ◌-◌, ◌^◌, ◌≡◌,
  refl, inr, false, ◌||◌, Option, none, some, List, [], ◌∷◌, arith,
}
use container_web_tty.Base.Int.{pos, negsuc}
use container_web_tty.Proxy.Streams.{
  TtyCall, resizes, writes, fine, end_of_file, other, Round, receive, send_all,
}
use container_web_tty.Grpc.Tty.{int32, new_stream, exit}
use container_web_tty.Grpc.Tty.Calls.{arrives, succeeded, perform_all, remote_calls}
use container_web_tty.Grpc.Tty.Output.{read_loop, received, until_end, remote_output, short_buffer}

-- The first and the fourth send fail.
unfoldable unsteady : ℕ → Option Bytes
unsteady i = if i == 0 || i == 3 then some (str "unavailable") else none

abbrev work : List TtyCall
work = resizes (pos 80) (pos 24) ∷ writes (str "ls") ∷ writes (str "x") ∷ writes (str "pwd") ∷ []

int32_wraps : int32 (pos (2 ^ 31)) ≡ negsuc (2 ^ 31 - 1)
unfolding int32
int32_wraps = refl

-- The size is sent again, and the input of the failed write is lost.
remote_calls_example :
    receive (
      arrives
        (str "EOF")
        (take 10 (exit unsteady none (perform_all unsteady work new_stream).1).1.sent))
    ≡ record {
      calls =
          resizes (pos 80) (pos 24)
          ∷ writes (str "ls")
          ∷ writes (str "pwd")
          ∷ writes (3 ∷ [])
          ∷ writes (4 ∷ [])
          ∷ [];
      panicked = false;
    }
unfolding unsteady succeeded perform_all int32
remote_calls_example = remote_calls unsteady work none 10 (str "EOF")

abbrev rounds : List Round
rounds =
    record { bytes = str "bin"; read_fault = fine; send_fault = fine }
    ∷ record { bytes = str "$ "; read_fault = other; send_fault = fine }
    ∷ record { bytes = []; read_fault = end_of_file; send_fault = fine }
    ∷ []

remote_output_example :
    read_loop (replicate 1024 0) (received (str "EOF") (send_all rounds))
    ≡ some (str "bin") ∷ some (str "$ ") ∷ []
unfolding until_end
remote_output_example =
    remote_output rounds (replicate 1024 0) (str "EOF")
      (omega arith, refl, (omega arith, refl, (omega arith, refl, tt)))
      (omega (arith, length-replicate {A = ℕ} 1024 0))

short_buffer_test :
    get_elem? (read_loop (0 ∷ []) (received (str "EOF") (str "bin" ∷ []))) 0 ≡ some none
unfolding received
short_buffer_test = short_buffer (0 ∷ []) (str "bin") (inr (str "EOF") ∷ []) (omega arith)
