-- ===== src/Route/Slave/Tests.antt =====
-- Tests of route/slave_wrapper.go and util/rwc.go.
use container_web_tty.Base.{length, take, drop, Bytes, str, ◌≡◌, none, List, [], ◌∷◌, ◌++◌}
use container_web_tty.Base.Int.{pos}
use container_web_tty.Route.Slave.{ReadCloser, ReadWriteCloser, nop_rw_closer, new_slave}
use container_web_tty.Route.Slave.Calls.{
  Call, reads, writes, resizes, got, wrote, resized, run, read_log, slave_reaches,
}

-- A log, as the text that is left of it.
abbrev log : ReadCloser Bytes
log = record { read = λ n s. (drop n s, (take n s, none)); close = λ s. (s, none) }

abbrev terminal : ReadWriteCloser Bytes
terminal = record { read = log.read; write = λ p s. (s ++ p, (length p, none)); close = log.close }

abbrev typed : List Call
typed = reads 2 ∷ writes (str "ls") ∷ resizes (pos 80) (pos 24) ∷ reads 3 ∷ []

slave_reaches_test :
    (run (new_slave (nop_rw_closer log)) typed (str "hello")
      ≡ ([], got (str "he") none ∷ wrote 2 none ∷ resized none ∷ got (str "llo") none ∷ []))
    × ((run (new_slave terminal) typed (str "hello")).0
        ≡ (run (new_slave terminal) (reads 2 ∷ writes (str "ls") ∷ reads 3 ∷ []) (str "hello")).0)
unfolding read_log
slave_reaches_test = slave_reaches log terminal typed (str "hello")
