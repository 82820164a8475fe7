-- ===== src/Route/Exec/Twice.antt =====
-- route/exec.go: two handlers of one exec ID. Both find no master, both open a terminal, and the end
-- of the first takes away the entries of the second.
use container_web_tty.Base.{
  is_empty, Bytes, bytes_eq_refl, lookup, insert, ℕ, zero, suc, ◌≡◌, refl, ◌≢◌, true, false, [],
  ◌∷◌, arith,
}
use container_web_tty.Base.Int.{pos}
use container_web_tty.Types.{Container}
use container_web_tty.Config.{ServerConfig}
use container_web_tty.Route.Counter.Balance.{done-closing}
use container_web_tty.Route.Counter.{Counter, new_counter, add}
use container_web_tty.Route.Exec.{handle_exec, serves, not_found, end_tty, admit, admitted}
use container_web_tty.Route.Server.{Server, new, set_container_id, get_container_id}
use container_web_tty.Route.Exec.Opening.{end_tty_lem}
use container_web_tty.Route.Exec.Sessions.{
  Session, World, redirects, asks, enters, opens, ends, Reach, here, next, start,
}

module _ (options : ServerConfig) (exec_id cid : Bytes) (c : Container) (first second : ℕ) where
  -- The counter after the two handlers came in.
  abbrev counter_at : ℕ → Counter
  counter_at zero = new_counter options.idle_time
  counter_at (suc n) = (add 1 (counter_at n)).0

  admit_free :
      (counter : Counter)
      → options.max_connection ≡ pos 0
      → is_empty c.shell ≡ false
      → admit options.max_connection c counter ≡ admitted (add 1 counter).0
  unfolding admit add
  admit_free counter free shell = rw (free, shell)

  busy : (counter_at 2).wg ≢ 0
  unfolding add
  busy h = omega arith

  gone :
      (s : Server) (counter : Counter)
      → handle_exec exec_id (record (end_tty exec_id s) { counter = counter }) ≡ not_found
  unfolding handle_exec end_tty
  gone s counter = (end_tty_lem exec_id exec_id s).0

  entered_server : Server
  entered_server = set_container_id exec_id cid (new options)

  found : handle_exec exec_id entered_server ≡ serves cid
  unfolding entered_server set_container_id new handle_exec get_container_id lookup insert
  found = ground (arith, bytes_eq_refl exec_id)

  abbrev both_ask : World
  both_ask = record (start options) { server = entered_server; asked = exec_id ∷ exec_id ∷ [] }

  both_ask-Reach : Reach (start options) both_ask
  unfolding entered_server
  both_ask-Reach =
      next (next (next here (redirects exec_id cid)) (asks exec_id cid found))
        (asks exec_id cid found)

  -- Without a limit of connections, and with a container that has a shell: a new server comes to a
  -- state in which two handlers of one exec ID have found that it has no master. From there they
  -- lead to a terminal that is live, with its master entered, while its exec ID is unknown, so that
  -- nobody can join it.
  pub orphaned_session :
      options.max_connection ≡ pos 0
      → is_empty c.shell ≡ false
      → (w w' : World) × Reach (start options) w
        × (w.asked ≡ exec_id ∷ exec_id ∷ [])
        × (w.live ≡ [])
        × Reach w w'
        × (w'.asked ≡ [])
        × (w'.live ≡ record { exec_id = exec_id; entered = true } ∷ [])
        × (handle_exec exec_id w'.server ≡ not_found)
  unfolding entered_server set_container_id new
  orphaned_session free shell =
      let waits : Session = record { exec_id = exec_id; entered = false } in
      let runs : Session = record { exec_id = exec_id; entered = true } in
      let one = next here (
        enters exec_id [] (exec_id ∷ []) c (counter_at 1) refl
          (admit_free (counter_at 0) free shell)) in
      let two =
        next one
          (enters exec_id [] [] c (counter_at 2) refl (admit_free (counter_at 1) free shell)) in
      let three = next two (opens exec_id [] (waits ∷ []) first refl) in
      let four = next three (opens exec_id (runs ∷ []) [] second refl) in
      (
        both_ask,
        _,
        both_ask-Reach,
        refl,
        refl,
        next four (ends runs [] (runs ∷ []) _ _ refl (done-closing (counter_at 2) busy)),
        refl,
        refl,
        gone _ _,
      )
