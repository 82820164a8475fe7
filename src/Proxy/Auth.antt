-- ===== src/Proxy/Auth.antt =====
-- proxy/server.go: what a caller without the right token can do.
mod Tests
use mathlib.Core.Option
use mathlib.Core.Option.{some-injective}
use container_web_tty.Base.{
  Bytes, bytes_eq_iff, ◌≡◌, sym, ◌∙◌, ◌≢◌, ◌⊎◌, inl, inr, Option, none, some, arith,
}
use container_web_tty.Backend.{Cli}
use container_web_tty.Proxy.Messages.{Empty, ContainerId, LogOpts, ExecMessage}
use container_web_tty.Proxy.Service.{
  Reply, panics, fails, auth_failed, check_auth, check_nil, guarded, ping, get_info, list, start,
  stop, restart, exec, logs,
}

pub data Request : Type 0 where
  pings : Option Empty → Request
  gets_info : Option ContainerId → Request
  lists : Option Empty → Request
  starts : Option ContainerId → Request
  stops : Option ContainerId → Request
  restarts : Option ContainerId → Request
  execs : ExecMessage ⊎ Bytes → Request
  reads_logs : LogOpts → Request

module _ (cli : Cli) (expected : Bytes) where
  -- The service's dispatch of a request to its handler.
  unfoldable pub handle : Request → cli.State → cli.State × Reply
  handle (pings e) = ping cli expected e
  handle (gets_info cid) = get_info cli expected cid
  handle (lists e) = list cli expected e
  handle (starts cid) = start cli expected cid
  handle (stops cid) = stop cli expected cid
  handle (restarts cid) = restart cli expected cid
  handle (execs m) = exec cli expected m
  handle (reads_logs o) = logs cli expected o

-- The token that a request carries, if the message that holds it is there.
abbrev pub token_of : Request → Option Bytes
token_of (pings e) = Option.map (λ (m : Empty). m.auth) e
token_of (gets_info cid) = Option.map (λ (m : ContainerId). m.auth) cid
token_of (lists e) = Option.map (λ (m : Empty). m.auth) e
token_of (starts cid) = Option.map (λ (m : ContainerId). m.auth) cid
token_of (stops cid) = Option.map (λ (m : ContainerId). m.auth) cid
token_of (restarts cid) = Option.map (λ (m : ContainerId). m.auth) cid
token_of (execs (inl m)) = some m.auth
token_of (execs (inr e)) = none
token_of (reads_logs o) = Option.map (λ (m : ContainerId). m.auth) o.c

module _ (cli : Cli) (expected : Bytes) where
  guarded_denied :
      {A : Type 0} (p : Option A) (auth_of : A → Bytes) (body : A → cli.State × Reply)
      (st : cli.State) (token : Bytes)
      → Option.map auth_of p ≡ some token
      → token ≢ expected
      → guarded cli expected p auth_of body st ≡ (st, fails auth_failed)
  unfolding guarded check_nil check_auth
  guarded_denied none auth_of body st token e ne = cc
  guarded_denied (some m) auth_of body st token e ne =
      ground (arith, bytes_eq_iff (auth_of m) expected)

  exec_denied :
      (m : ExecMessage) (st : cli.State)
      → m.auth ≢ expected
      → exec cli expected (inl m) st ≡ (st, fails auth_failed)
  unfolding exec check_auth
  exec_denied m st ne = ground (arith, bytes_eq_iff m.auth expected)

-- A request with another token than the server's is refused by every handler, and the backend is
-- left as it was.
pub handle_denied :
    (cli : Cli) (expected token : Bytes) (r : Request) (st : cli.State)
    → token_of r ≡ some token
    → token ≢ expected
    → handle cli expected r st ≡ (st, fails auth_failed)
unfolding handle ping get_info list start stop restart logs
handle_denied cli expected token (pings e) st t ne = guarded_denied cli expected e _ _ st token t ne
handle_denied cli expected token (gets_info cid) st t ne =
    guarded_denied cli expected cid _ _ st token t ne
handle_denied cli expected token (lists e) st t ne = guarded_denied cli expected e _ _ st token t ne
handle_denied cli expected token (starts cid) st t ne =
    guarded_denied cli expected cid _ _ st token t ne
handle_denied cli expected token (stops cid) st t ne =
    guarded_denied cli expected cid _ _ st token t ne
handle_denied cli expected token (restarts cid) st t ne =
    guarded_denied cli expected cid _ _ st token t ne
handle_denied cli expected token (execs (inl m)) st t ne =
    exec_denied cli expected m st (λ e. ne (sym (some-injective m.auth token t) ∙ e))
handle_denied cli expected token (execs (inr e)) st t ne = cc
handle_denied cli expected token (reads_logs o) st t ne =
    guarded_denied cli expected o.c _ _ st token t ne

-- A log request with no container in it, which any caller can send, panics before any token is
-- checked, whatever the token of the server.
pub logs_nil_panics :
    (cli : Cli) (expected : Bytes) (o : LogOpts) (st : cli.State)
    → o.c ≡ none
    → handle cli expected (reads_logs o) st ≡ (st, panics)
unfolding handle logs guarded check_nil
logs_nil_panics cli expected o st e = rw (e, guarded)
