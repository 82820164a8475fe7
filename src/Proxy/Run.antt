-- ===== src/Proxy/Run.antt =====
-- proxy/proxy.go: `Run` of the gRPC server. `GracefulStop` and `Stop` are package grpc's: the first
-- takes no new stream and waits for the open ones, the second ends them. An error of `Serve` is only
-- logged.
pub mod Drained
use container_web_tty.Base.{Bytes, ℕ, suc, ◌+◌, ◌≡◌, Bool, true, false, Option, none, some}

-- `Run` is before `net.Listen`, waits for the graceful context, or for the end of `GracefulStop`, or
-- has returned, where `none` stands for nil.
pub data Phase : Type 0 where
  starting serving stopping : Phase
  returned : Option Bytes → Phase

-- `accepting` tells whether new streams are taken, and `stopped` whether `gStopped` is closed.
pub record Running : Type 0 where
  pub phase : Phase
  pub graceful : Bool
  pub cancelled : Bool
  pub accepting : Bool
  pub streams : ℕ
  pub stopped : Bool

abbrev pub start : Running
start = record {
  phase = starting;
  graceful = false;
  cancelled = false;
  accepting = false;
  streams = 0;
  stopped = false;
}

pub data Step (s : Running) : Running → Type 0 where
  -- `net.Listen`.
  listens : s.phase ≡ starting → Step s (record s { phase = serving; accepting = true })
  listen_fails : (e : Bytes) → s.phase ≡ starting → Step s (record s { phase = returned (some e) })
  opens : s.accepting ≡ true → Step s (record s { streams = s.streams + 1 })
  closes : (k : ℕ) → s.streams ≡ suc k → Step s (record s { streams = k })
  stops : s.phase ≡ serving → s.graceful ≡ true → Step s (record s { phase = stopping })
  -- The goroutine of `GracefulStop`: it takes no new stream, and returns when there is none.
  refuses : s.phase ≡ stopping → Step s (record s { accepting = false })
  drains :
      s.phase ≡ stopping
      → s.accepting ≡ false
      → s.streams ≡ 0
      → Step s (record s { stopped = true })
  -- The two cases of the `select`.
  returns_stopped :
      s.phase ≡ stopping → s.stopped ≡ true → Step s (record s { phase = returned none })
  returns_cancelled :
      s.phase ≡ stopping
      → s.cancelled ≡ true
      → Step s (record s { phase = returned none; accepting = false; streams = 0 })
