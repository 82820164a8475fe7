-- ===== src/Main/Program/Tests.antt =====
-- Tests of the program of run.go.
use container_web_tty.Base.{true, false, none, some}
use container_web_tty.Base.Int.{pos}
use container_web_tty.Route.Run as Http
use container_web_tty.Proxy.Run as Grpc
use container_web_tty.Main.Program.{exited, Program}

-- The HTTP server alone, after one SIGINT.
abbrev ended : Http.Running
ended = record (Http.start (pos 60)) {
  phase = Http.returned none;
  listening = false;
  graceful = true;
}

abbrev finished : Program
finished = record { main = exited none; forced = false; http = some ended; grpc = none }
