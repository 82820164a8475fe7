-- ===== src/Route/Run.antt =====
-- route/route.go: `Run`, from `ListenAndServe` to its return and after it, beside the handlers that it
-- serves. A request is tracked by package http until its handler ends or takes the connection over.
-- Each step is one action of one goroutine.
pub mod Invariant
pub mod Ends
mod Progress
mod Tests
use container_web_tty.Base.{Bytes, ℕ, suc, ◌+◌, ◌<◌, ◌≡◌, Bool, true, false, Option, none, some}
use container_web_tty.Base.Int.{ℤ}
use container_web_tty.Route.Counter.{Counter, new_counter, add, done, may_return}

-- What `ListenAndServe` returns: `http.ErrServerClosed`, or another error.
pub data ServeError : Type 0 where
  server_closed : ServeError
  failed : Bytes → ServeError

-- What `Run` returns, where `none` stands for nil.
pub data RunError : Type 0 where
  context_canceled : RunError
  serve_error : Bytes → RunError

-- `Run` is in its `select`, in `counter.wait()`, or has returned; or `log.Fatal` ended the program.
pub data Phase : Type 0 where
  serving : Phase
  waiting : Option RunError → Phase
  returned : Option RunError → Phase
  fatal : Phase

abbrev pub is_running : Phase → Bool
is_running serving = true
is_running (waiting e) = true
is_running (returned e) = false
is_running fatal = false

-- The process goes on until `log.Fatal`, also after `Run` has returned.
abbrev pub is_alive : Phase → Bool
is_alive serving = true
is_alive (waiting e) = true
is_alive (returned e) = true
is_alive fatal = false

-- `serve_error` is what lies in the channel `srvErr`; `graceful` and `cancelled` tell whether the two
-- contexts are done, of which the first is derived from the second.
pub record Running : Type 0 where
  pub phase : Phase
  pub listening : Bool
  pub served : Option ServeError
  pub graceful : Bool
  pub cancelled : Bool
  pub requests : ℕ
  pub counter : Counter

abbrev pub start : ℤ → Running
start idle_time = record {
  phase = serving;
  listening = true;
  served = none;
  graceful = false;
  cancelled = false;
  requests = 0;
  counter = new_counter idle_time;
}

-- What the clients, the network and the owner of the contexts do.
pub data Outside (s : Running) : Running → Type 0 where
  accepts :
      is_alive s.phase ≡ true
      → s.listening ≡ true
      → Outside s (record s { requests = s.requests + 1 })
  listen_fails :
      (e : Bytes)
      → is_alive s.phase ≡ true
      → s.listening ≡ true
      → Outside s (record s { listening = false; served = some (failed e) })
  stops_gracefully : is_alive s.phase ≡ true → Outside s (record s { graceful = true })
  cancels : is_alive s.phase ≡ true → Outside s (record s { graceful = true; cancelled = true })

-- What the handlers do, also those that still run after `Run` has returned. When they end is up to
-- their clients and to the backend.
pub data Handlers (s : Running) : Running → Type 0 where
  -- A handler ends, or takes the connection over without being counted, as those of joined terminals
  -- and of logs do.
  request_ends :
      (k : ℕ)
      → is_alive s.phase ≡ true
      → s.requests ≡ suc k
      → Handlers s (record s { requests = k })
  -- A handler is counted and takes the connection over.
  connects :
      (k : ℕ)
      → is_alive s.phase ≡ true
      → s.requests ≡ suc k
      → Handlers s (record s { requests = k; counter = (add 1 s.counter).0 })
  -- A counted handler ends.
  disconnects :
      (c : Counter) (n : ℕ)
      → is_alive s.phase ≡ true
      → done s.counter ≡ some (c, n)
      → Handlers s (record s { counter = c })

-- What the goroutines of `Run` do.
pub data Inside (s : Running) : Running → Type 0 where
  -- `srv.Shutdown` after the graceful context is done: `ListenAndServe` returns.
  shuts :
      is_alive s.phase ≡ true
      → s.graceful ≡ true
      → s.listening ≡ true
      → Inside s (record s { listening = false; served = some server_closed })
  -- `Shutdown` fails after five seconds, while a request is still tracked. `Run` may have returned.
  shutdown_fails :
      is_alive s.phase ≡ true
      → s.graceful ≡ true
      → 0 < s.requests
      → Inside s (record s { phase = fatal })
  -- The `select` of `Run`.
  takes_closed :
      s.phase ≡ serving
      → s.served ≡ some server_closed
      → Inside s (record s { phase = waiting none; served = none })
  takes_failure :
      (e : Bytes)
      → s.phase ≡ serving
      → s.served ≡ some (failed e)
      → Inside s (record s { phase = waiting (some (serve_error e)); served = none })
  takes_cancel :
      s.phase ≡ serving
      → s.cancelled ≡ true
      → Inside s (record s { phase = waiting (some context_canceled); listening = false })
  -- `counter.wait()` returns.
  returns :
      (e : Option RunError)
      → s.phase ≡ waiting e
      → may_return s.counter ≡ true
      → Inside s (record s { phase = returned e })

pub data Reach (s : Running) : Running → Type 0 where
  here : Reach s s
  outside : {t u : Running} → Reach s t → Outside t u → Reach s u
  handled : {t u : Running} → Reach s t → Handlers t u → Reach s u
  inside : {t u : Running} → Reach s t → Inside t u → Reach s u
