-- ===== src/Main/Program/Drains.antt =====
-- run.go: what holds of the servers when the program exits by itself.
use container_web_tty.Base.{Bytes, ◌<◌, ◌≡◌, ◌≢◌, true, false, Option, none, some}
use container_web_tty.Base.Int.{ℤ}
use container_web_tty.Route.Run as Http
use container_web_tty.Proxy.Run as Grpc
use container_web_tty.Proxy.Run.Drained.{Drained}
use container_web_tty.Route.Run.Ends.{AtReturn}
use container_web_tty.Main.Program.{exited, killed, crashed, is_waiting, Program, grpc_error, Reach}

-- How an exit that was not forced came about: `Run` of the HTTP server has returned the error, `Run`
-- of the gRPC server has, or `Shutdown` of the HTTP server has failed.
pub data Ended (d : ℤ) (p : Program) : Type 0 where
  by_http :
      (h t : Http.Running) (e : Option Http.RunError)
      → p.main ≡ exited e
      → p.http ≡ some h
      → AtReturn d e h t
      → Ended d p
  by_grpc :
      (g : Grpc.Running) (e : Option Bytes)
      → p.main ≡ exited (grpc_error e)
      → p.grpc ≡ some g
      → g.phase ≡ Grpc.returned e
      → g.accepting ≡ false
      → g.streams ≡ 0
      → Ended d p
  by_fatal :
      (h : Http.Running)
      → p.main ≡ killed
      → p.http ≡ some h
      → h.graceful ≡ true
      → 0 < h.requests
      → Ended d p

abbrev pub HttpOk : ℤ → Option Http.Running → Type 0
HttpOk d none = Unit
HttpOk d (some h) = Http.Reach (Http.start d) h

abbrev pub GrpcOk : Option Grpc.Running → Type 0
GrpcOk none = Unit
GrpcOk (some g) = Drained g

pub record Inv (d : ℤ) (p : Program) : Type 0 where
  pub http_ok : HttpOk d p.http
  pub grpc_ok : GrpcOk p.grpc
  pub http_alive :
      is_waiting p.main ≡ true → (h : Http.Running) → p.http ≡ some h → Http.is_alive h.phase ≡ true
  pub ended : is_waiting p.main ≡ false → p.main ≢ crashed → p.forced ≡ false → Ended d p
