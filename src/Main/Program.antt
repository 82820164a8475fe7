-- ===== src/Main/Program.antt =====
-- run.go with util/util.go's `WaitSignals`: the program from its start to its exit, with the HTTP
-- server of route/route.go, the gRPC server of proxy/proxy.go, or both. The HTTP server is one that
-- `New` has made; where `New` fails, `log.Fatalf` ends the program at once.
mod Drains
mod Drops
mod Tests
use container_web_tty.Base.{Bytes, ◌≡◌, Bool, true, false, Option, none, some}
use container_web_tty.Route.Run as Http
use container_web_tty.Proxy.Run as Grpc

-- `WaitSignals` in its first and its second `select`, the end of `run` with the error that it returns,
-- the exit by `log.Fatal` of the HTTP server, and that by a panic or `log.Fatal` of another goroutine,
-- such as the one that follows Docker's events.
pub data Waiting : Type 0 where
  first_signal : Waiting
  second_signal : Waiting
  exited : Option Http.RunError → Waiting
  killed : Waiting
  crashed : Waiting

abbrev pub is_waiting : Waiting → Bool
is_waiting first_signal = true
is_waiting second_signal = true
is_waiting (exited e) = false
is_waiting killed = false
is_waiting crashed = false

-- `forced` tells whether `cancel` was called.
pub record Program : Type 0 where
  pub main : Waiting
  pub forced : Bool
  pub http : Option Http.Running
  pub grpc : Option Grpc.Running

-- The end of the graceful context reaches both servers.
abbrev pub stop_http : Option Http.Running → Option Http.Running
stop_http none = none
stop_http (some h) = some (record h { graceful = true })

abbrev pub stop_grpc : Option Grpc.Running → Option Grpc.Running
stop_grpc none = none
stop_grpc (some g) = some (record g { graceful = true })

abbrev pub program : Option Http.Running → Option Grpc.Running → Program
program http grpc = record { main = first_signal; forced = false; http = http; grpc = grpc }

-- The error of the gRPC server, in the channel of both servers.
abbrev pub grpc_error : Option Bytes → Option Http.RunError
grpc_error none = none
grpc_error (some e) = some (Http.serve_error e)

-- A step of one goroutine. The servers and the handlers go on until the process ends, also after
-- `Run` has returned. Of two errors in the channel either may be the next.
pub data Step (p : Program) : Program → Type 0 where
  http_inside :
      (s t : Http.Running)
      → is_waiting p.main ≡ true
      → p.http ≡ some s
      → Http.Inside s t
      → Http.is_alive t.phase ≡ true
      → Step p (record p { http = some t })
  -- `log.Fatal` after a failed `Shutdown` ends the process.
  http_kills :
      (s t : Http.Running)
      → is_waiting p.main ≡ true
      → p.http ≡ some s
      → Http.Inside s t
      → t.phase ≡ Http.fatal
      → Step p (record p { main = killed; http = some t })
  http_handles :
      (s t : Http.Running)
      → is_waiting p.main ≡ true
      → p.http ≡ some s
      → Http.Handlers s t
      → Step p (record p { http = some t })
  -- A request arrives or the listener fails: the contexts are as before.
  http_outside :
      (s t : Http.Running)
      → is_waiting p.main ≡ true
      → p.http ≡ some s
      → Http.Outside s t
      → t.graceful ≡ s.graceful
      → t.cancelled ≡ s.cancelled
      → Step p (record p { http = some t })
  grpc_goes :
      (s t : Grpc.Running)
      → is_waiting p.main ≡ true
      → p.grpc ≡ some s
      → Grpc.Step s t
      → Step p (record p { grpc = some t })
  -- SIGINT, which calls `gracefullCancel`.
  interrupts :
      p.main ≡ first_signal
      → Step p (record p { main = second_signal; http = stop_http p.http; grpc = stop_grpc p.grpc })
  -- SIGTERM at first, or any second signal, which calls `cancel`.
  forces : is_waiting p.main ≡ true → Step p (record p { main = exited none; forced = true })
  crashes : is_waiting p.main ≡ true → Step p (record p { main = crashed })
  http_ends :
      (h : Http.Running) (e : Option Http.RunError)
      → is_waiting p.main ≡ true
      → p.http ≡ some h
      → h.phase ≡ Http.returned e
      → Step p (record p { main = exited e })
  grpc_ends :
      (g : Grpc.Running) (e : Option Bytes)
      → is_waiting p.main ≡ true
      → p.grpc ≡ some g
      → g.phase ≡ Grpc.returned e
      → Step p (record p { main = exited (grpc_error e) })

pub data Reach (p : Program) : Program → Type 0 where
  here : Reach p p
  step : {q r : Program} → Reach p q → Step q r → Reach p r
