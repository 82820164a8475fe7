-- ===== src/Route/Slave.antt =====
-- route/slave_wrapper.go and util/rwc.go: the adapters that make a terminal of package webtty of a
-- reader and writer, and a reader and writer of a log.
mod Calls
mod Tests
use container_web_tty.Base.{length, Bytes, ℕ, Option, none}
use container_web_tty.Base.Int.{ℤ}

-- What `Read` gives: the bytes, and an error.
abbrev pub ReadBytes : Type 0
ReadBytes = Bytes × Option Bytes

-- `io.ReadCloser` over a state.
pub record ReadCloser (S : Type 0) : Type 0 where
  pub read : ℕ → S → S × ReadBytes
  pub close : S → S × Option Bytes

-- `io.ReadWriteCloser`
pub record ReadWriteCloser (S : Type 0) : Type 0 where
  pub read : ℕ → S → S × ReadBytes
  pub write : Bytes → S → S × (ℕ × Option Bytes)
  pub close : S → S × Option Bytes

-- `webtty.Slave`
pub record Slave (S : Type 0) : Type 0 where
  pub read : ℕ → S → S × ReadBytes
  pub write : Bytes → S → S × (ℕ × Option Bytes)
  pub resize_terminal : ℤ → ℤ → S → S × Option Bytes

-- `NopRWCloser`: a write is accepted whole and dropped.
unfoldable pub nop_rw_closer : {S : Type 0} → ReadCloser S → ReadWriteCloser S
nop_rw_closer r = record { read = r.read; write = λ p s. (s, (length p, none)); close = r.close }

-- `newSlave`: a resize does nothing.
unfoldable pub new_slave : {S : Type 0} → ReadWriteCloser S → Slave S
new_slave master = record {
  read = master.read;
  write = master.write;
  resize_terminal = λ columns rows s. (s, none);
}
