-- ===== src/Route/Slave/Calls.antt =====
-- route/slave_wrapper.go and util/rwc.go: what the calls on a terminal leave of what is behind it.
use container_web_tty.Base.{length, Bytes, ℕ, ◌≡◌, refl, Option, none, List, [], ◌∷◌}
use container_web_tty.Base.Int.{ℤ}
use container_web_tty.Route.Slave.{ReadCloser, ReadWriteCloser, Slave, nop_rw_closer, new_slave}

-- The calls of package webtty on a terminal.
pub data Call : Type 0 where
  reads : ℕ → Call
  writes : Bytes → Call
  resizes : ℤ → ℤ → Call

-- What a call returns: the bytes that it read, or a count, and an error.
pub data Result : Type 0 where
  got : Bytes → Option Bytes → Result
  wrote : ℕ → Option Bytes → Result
  resized : Option Bytes → Result

-- The calls other than those for a size.
abbrev pub without_sizes : List Call → List Call
without_sizes [] = []
without_sizes (resizes columns rows ∷ cs) = without_sizes cs
without_sizes (reads n ∷ cs) = reads n ∷ without_sizes cs
without_sizes (writes p ∷ cs) = writes p ∷ without_sizes cs

module _ {S : Type 0} where
  unfoldable pub call : Slave S → Call → S → S × Result
  call t (reads n) s = let (s', (bs, e)) = t.read n s in (s', got bs e)
  call t (writes p) s = let (s', (n, e)) = t.write p s in (s', wrote n e)
  call t (resizes columns rows) s =
      let (s', e) = t.resize_terminal columns rows s in (s', resized e)

  unfoldable pub run : Slave S → List Call → S → S × List Result
  unfolding call
  run t [] s = (s, [])
  run t (c ∷ cs) s = let (s', r) = call t c s in let (s'', rs) = run t cs s' in (s'', r ∷ rs)

  -- The same calls on the reader of a log: the reads reach it, every input is taken whole and every
  -- size without an error.
  unfoldable pub read_log : ReadCloser S → List Call → S → S × List Result
  read_log r [] s = (s, [])
  read_log r (reads n ∷ cs) s =
      let (s', (bs, e)) = r.read n s in let (s'', rs) = read_log r cs s' in (s'', got bs e ∷ rs)
  read_log r (writes p ∷ cs) s =
      let (s'', rs) = read_log r cs s in (s'', wrote (length p) none ∷ rs)
  read_log r (resizes columns rows ∷ cs) s =
      let (s'', rs) = read_log r cs s in (s'', resized none ∷ rs)

  view_of_log :
      (r : ReadCloser S) (cs : List Call) (s : S)
      → run (new_slave (nop_rw_closer r)) cs s ≡ read_log r cs s
  unfolding run call read_log new_slave nop_rw_closer
  view_of_log r [] s = refl
  view_of_log r (reads n ∷ cs) s = rw (view_of_log r cs (r.read n s).0) refl
  view_of_log r (writes p ∷ cs) s = rw (view_of_log r cs s) refl
  view_of_log r (resizes columns rows ∷ cs) s = rw (view_of_log r cs s) refl

  sizes_dropped :
      (master : ReadWriteCloser S) (cs : List Call) (s : S)
      → (run (new_slave master) cs s).0 ≡ (run (new_slave master) (without_sizes cs) s).0
  unfolding run call new_slave
  sizes_dropped master [] s = refl
  sizes_dropped master (reads n ∷ cs) s = sizes_dropped master cs (master.read n s).0
  sizes_dropped master (writes p ∷ cs) s = sizes_dropped master cs (master.write p s).0
  sizes_dropped master (resizes columns rows ∷ cs) s = sizes_dropped master cs s

  -- Whatever is typed into a view of a log and however its window is resized, the log's reader is
  -- reached by the reads alone and every input and size is accepted; and in any terminal that is
  -- made by newSlave, such as one that has joined another, no size reaches what is behind it.
  pub slave_reaches :
      (r : ReadCloser S) (master : ReadWriteCloser S) (cs : List Call) (s : S)
      → (run (new_slave (nop_rw_closer r)) cs s ≡ read_log r cs s)
        × ((run (new_slave master) cs s).0 ≡ (run (new_slave master) (without_sizes cs) s).0)
  slave_reaches r master cs s = (view_of_log r cs s, sizes_dropped master cs s)
