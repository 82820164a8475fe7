-- ===== src/Main/Program/Drops.antt =====
-- run.go with util/util.go's `WaitSignals`: which connections a graceful exit ends.
use container_web_tty.Base.{ℕ, zero, suc, ◌+◌, ◌≡◌, refl, ap, ◌∙◌, true, false, none, some, arith}
use container_web_tty.Base.Int.{ℤ}
use container_web_tty.Route.Counter.{new_counter}
use container_web_tty.Route.Run as Http
use container_web_tty.Route.Run.Invariant.{add-connections}
use container_web_tty.Proxy.Run as Grpc
use container_web_tty.Main.Program.{
  Program, program, http_handles, http_outside, grpc_goes, Reach, here, step,
}

-- The gRPC server after it listens.
abbrev grpc_serving : Grpc.Running
grpc_serving = record Grpc.start { phase = Grpc.serving; accepting = true }

-- The gRPC server without a stream, at its end.
abbrev at_end : Grpc.Running
at_end = record {
  phase = Grpc.returned none;
  graceful = true;
  cancelled = false;
  accepting = false;
  streams = 0;
  stopped = true;
}

-- The program in its first `select`, with `n` open connections and no other request.
record Connected (n : ℕ) (p : Program) : Type 0 where
  http : Http.Running
  reached : Reach p (program (some http) (some grpc_serving))
  serves : http.phase ≡ Http.serving
  listens : http.listening ≡ true
  answered : http.requests ≡ 0
  open_ones : http.counter.connections ≡ n

-- One more client opens a terminal.
connect_one : {p : Program} → {n : ℕ} → Connected n p → Connected (suc n) p
connect_one c =
    let alive : Http.is_alive c.http.phase ≡ true = rw c.serves refl in
    record {
      http = _;
      reached =
          step
            (step c.reached
              (http_outside c.http _ refl refl (Http.accepts alive c.listens) refl refl))
            (http_handles _ _ refl refl (Http.connects 0 alive (ap (λ (k : ℕ). k + 1) c.answered)));
      serves = c.serves;
      listens = c.listens;
      answered = refl;
      open_ones = add-connections c.http.counter ∙ (let e = c.open_ones in omega arith);
    }

connect : (n : ℕ) (d : ℤ) → Connected n (program (some (Http.start d)) (some Grpc.start))
unfolding new_counter
connect zero d = record {
  http = Http.start d;
  reached = step here (grpc_goes _ _ refl refl (Grpc.listens refl));
  serves = refl;
  listens = refl;
  answered = refl;
  open_ones = refl;
}
connect (suc n) d = connect_one (connect n d)
