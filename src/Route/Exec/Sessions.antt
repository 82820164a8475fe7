-- ===== src/Route/Exec/Sessions.antt =====
-- route/exec.go: the terminals of a server under any interleaving of their handlers. Between two
-- calls of the counter or the lock other handlers may run; each step is one such call.
use container_web_tty.Base.{
  if◌then◌else◌, Bool-cases, length, length-append, Bytes, insert, ℕ, zero, suc, ◌+◌, ◌-◌, ◌≤◌, ◌<◌,
  ◌≡◌, refl, sym, ap, ◌∙◌, subst, ◌≢◌, inl, inr, Bool, true, false, none, some, List, [], ◌∷◌, ◌++◌,
  arith,
}
use container_web_tty.Base.Int.{ℤ, pos, negsuc}
use container_web_tty.Types.{Container}
use container_web_tty.Config.{ServerConfig}
use container_web_tty.Route.Counter.{Counter, new_counter, add, done, count}
use container_web_tty.Route.Server.{Server, new, set_container_id}
use container_web_tty.Route.Exec.{too_many, admitted, admit, exceeds, end_tty, handle_exec, serves}

-- A handler that was let in and has not ended: its exec ID, and whether it has entered its master.
pub record Session : Type 0 where
  pub exec_id : Bytes
  pub entered : Bool

-- The server, the exec IDs of the handlers that found no master and have not come to the admission
-- yet, the handlers that were let in, and the number of handlers that were turned away and have not
-- called `done` yet.
pub record World : Type 0 where
  pub server : Server
  pub asked : List Bytes
  pub live : List Session
  pub leaving : ℕ

-- The deferred calls of `processTTY` behind the entry of the master.
abbrev pub end_session : Session → Server → Server
end_session x s = if x.entered then end_tty x.exec_id s else s

pub data Step (w : World) : World → Type 0 where
  -- `handleExecRedirect` enters an exec ID.
  redirects :
      (exec_id cid : Bytes) → Step w (record w { server = set_container_id exec_id cid w.server })
  -- `handleExec` finds the container of the exec ID and no master.
  asks :
      (exec_id cid : Bytes)
      → handle_exec exec_id w.server ≡ serves cid
      → Step w (record w { asked = exec_id ∷ w.asked })
  -- Such a handler is let in.
  enters :
      (exec_id : Bytes) (before behind : List Bytes) (c : Container) (counter : Counter)
      → w.asked ≡ before ++ exec_id ∷ behind
      → admit ((w.server).options).max_connection c (w.server).counter ≡ admitted counter
      → Step w (record w {
        server = record (w.server) { counter = counter };
        asked = before ++ behind;
        live = record { exec_id = exec_id; entered = false } ∷ w.live;
      })
  -- Such a handler is turned away.
  refuses :
      (exec_id : Bytes) (before behind : List Bytes) (c : Container) (counter : Counter)
      → w.asked ≡ before ++ exec_id ∷ behind
      → admit ((w.server).options).max_connection c (w.server).counter ≡ too_many counter
      → Step w (record w {
        server = record (w.server) { counter = counter };
        asked = before ++ behind;
        leaving = suc w.leaving;
      })
  -- Such a handler has a container without a shell, and returns.
  gives_up :
      (exec_id : Bytes) (before behind : List Bytes)
      → w.asked ≡ before ++ exec_id ∷ behind
      → Step w (record w { asked = before ++ behind })
  -- A handler that was turned away calls `done`.
  leaves :
      (k n : ℕ) (counter : Counter)
      → w.leaving ≡ suc k
      → done (w.server).counter ≡ some (counter, n)
      → Step w (record w { server = record (w.server) { counter = counter }; leaving = k })
  -- A handler that was let in enters its master.
  opens :
      (exec_id : Bytes) (before behind : List Session) (master : ℕ)
      → w.live ≡ before ++ record { exec_id = exec_id; entered = false } ∷ behind
      → Step w (record w {
        server = record (w.server) { masters = insert exec_id master (w.server).masters };
        live = before ++ record { exec_id = exec_id; entered = true } ∷ behind;
      })
  -- A handler that was let in ends: if its master was entered, the entries of its exec ID go. It
  -- calls `done`.
  ends :
      (x : Session) (before behind : List Session) (n : ℕ) (counter : Counter)
      → w.live ≡ before ++ x ∷ behind
      → done (w.server).counter ≡ some (counter, n)
      → Step w (record w {
        server = record (end_session x w.server) { counter = counter };
        live = before ++ behind;
      })

pub data Reach (v : World) : World → Type 0 where
  here : Reach v v
  next : {w u : World} → Reach v w → Step w u → Reach v u

abbrev pub start : ServerConfig → World
start options = record { server = new options; asked = []; live = []; leaving = 0 }

-- The number of handlers that were let in that a `MaxConnection` allows, if it sets a limit.
abbrev pub Within : ℤ → ℕ → Type 0
Within (pos zero) n = Unit {0}
Within (pos (suc m)) n = n ≤ suc m
Within (negsuc m) n = n ≡ 0

pub record Inv (max : ℤ) (w : World) : Type 0 where
  pub limit : ((w.server).options).max_connection ≡ max
  pub group : (w.server).counter.wg ≡ (w.server).counter.connections
  pub counted : (w.server).counter.connections ≡ length w.live + w.leaving
  pub within : Within max (length w.live)

admit_cases :
    (max : ℤ) (c : Container) (counter counter' : Counter)
    → (admit max c counter ≡ admitted counter')
    → (counter'.wg ≡ counter.wg + 1)
      × (counter'.connections ≡ counter.connections + 1)
      × (exceeds max (counter.connections + 1) ≡ false)
unfolding admit add
admit_cases max c counter counter' e = ground arith

refuse_cases :
    (max : ℤ) (c : Container) (counter counter' : Counter)
    → (admit max c counter ≡ too_many counter')
    → (counter'.wg ≡ counter.wg + 1) × (counter'.connections ≡ counter.connections + 1)
unfolding admit add
refuse_cases max c counter counter' e = ground arith

done_cases :
    (counter counter' : Counter) (n : ℕ)
    → done counter ≡ some (counter', n)
    → (counter'.wg ≡ counter.wg - 1)
      × (counter'.connections ≡ counter.connections - 1)
      × (0 < counter.wg)
unfolding done
done_cases counter counter' n e = ground arith

Within-suc :
    (max : ℤ) (n k : ℕ) → exceeds max (k + 1) ≡ false → n ≤ k → Within max n → Within max (suc n)
Within-suc (pos zero) n k e h w = tt
Within-suc (pos (suc m)) n k e h w = ground arith
Within-suc (negsuc m) n k e h w = cc

Within-le : (max : ℤ) (n k : ℕ) → k ≤ n → Within max n → Within max k
Within-le (pos zero) n k h w = tt
Within-le (pos (suc m)) n k h w = omega arith
Within-le (negsuc m) n k h w = omega arith

end_session-options :
    (x : Session) (s : Server) → (end_session x s).options.max_connection ≡ s.options.max_connection
unfolding end_tty
end_session-options x s = elim (Bool-cases x.entered) [ inl e ↦ rw e refl | inr e ↦ rw e refl ]

Step-Inv : {max : ℤ} {w u : World} → Step w u → Inv max w → Inv max u
Step-Inv {max} {w} (redirects exec_id cid) v =
    unfold set_container_id in
    (record { limit = v.limit; group = v.group; counted = v.counted; within = v.within })
Step-Inv {max} {w} (asks exec_id cid e) v = record {
  limit = v.limit;
  group = v.group;
  counted = v.counted;
  within = v.within;
}
Step-Inv {max} {w} (gives_up exec_id before behind a) v = record {
  limit = v.limit;
  group = v.group;
  counted = v.counted;
  within = v.within;
}
Step-Inv {max} {w} (enters exec_id before behind c counter a e) v =
    let (wg, n, fits) = admit_cases _ c (w.server).counter counter e in
    record {
      limit = v.limit;
      group = omega (arith, v.group);
      counted = omega (arith, v.counted);
      within =
          Within-suc max (length w.live) (w.server).counter.connections (rw (← v.limit) fits)
            (omega (arith, v.counted)) v.within;
    }
Step-Inv {max} {w} (refuses exec_id before behind c counter a e) v =
    let (wg, n) = refuse_cases _ c (w.server).counter counter e in
    record {
      limit = v.limit;
      group = omega (arith, v.group);
      counted = omega (arith, v.counted);
      within = v.within;
    }
Step-Inv {max} {w} (leaves k n counter l e) v =
    let (wg, m, busy) = done_cases (w.server).counter counter n e in
    record {
      limit = v.limit;
      group = omega (arith, v.group);
      counted = omega (arith, v.counted, l);
      within = v.within;
    }
Step-Inv {max} {w} (opens exec_id before behind master l) v =
    let same : length w.live
        ≡ length (before ++ record { exec_id = exec_id; entered = true } ∷ behind) =
      ap length l
      ∙ length-append before (record { exec_id = exec_id; entered = false } ∷ behind)
      ∙ sym (length-append before (record { exec_id = exec_id; entered = true } ∷ behind)) in
    record {
      limit = v.limit;
      group = v.group;
      counted = omega (arith, v.counted, same);
      within = subst (Within max) same v.within;
    }
Step-Inv {max} {w} (ends x before behind n counter l e) v =
    let (wg, m, busy) = done_cases (w.server).counter counter n e in
    let fewer : length w.live ≡ suc (length (before ++ behind)) =
      omega (arith, ap length l, length-append before (x ∷ behind), length-append before behind) in
    record {
      limit = end_session-options x w.server ∙ v.limit;
      group = omega (arith, v.group);
      counted = omega (arith, v.counted, fewer);
      within =
          Within-le max (length w.live) (length (before ++ behind)) (omega (arith, fewer)) v.within;
    }

Within-zero : (max : ℤ) → Within max 0
Within-zero (pos zero) = tt
Within-zero (pos (suc m)) = omega arith
Within-zero (negsuc m) = refl

start-Inv : (options : ServerConfig) → Inv options.max_connection (start options)
unfolding new new_counter
start-Inv options = record {
  limit = refl;
  group = refl;
  counted = omega arith;
  within = Within-zero options.max_connection;
}

Reach-Inv : {max : ℤ} {v w : World} → Inv max v → Reach v w → Inv max w
Reach-Inv h here = h
Reach-Inv h (next r st) = Step-Inv st (Reach-Inv h r)

done_total : (c : Counter) → 0 < c.wg → done c ≢ none
unfolding done
done_total c h = ground arith

-- However the handlers of a new server interleave, never more terminals are live than
-- `MaxConnection` allows; the counter is the number of live terminals and of the handlers that are
-- being turned away; and the `done` of any of them does not panic.
pub sessions_bounded :
    (options : ServerConfig) (w : World)
    → Reach (start options) w
    → Within options.max_connection (length w.live)
      × (count (w.server).counter ≡ length w.live + w.leaving)
      × (0 < length w.live + w.leaving → done (w.server).counter ≢ none)
unfolding count
sessions_bounded options w r =
    let v = Reach-Inv (start-Inv options) r in
    (v.within, v.counted, λ h. done_total (w.server).counter (omega (arith, v.group, v.counted)))
