-- ===== src/Docker/Tty/Session.antt =====
-- container/docker/slave.go: what reaches the container in a session of the terminal.
use mathlib.Core.List.{append-nil, append_assoc}
use container_web_tty.Base.{
  take, concat, Bytes, ℕ, ◌+◌, ◌≡◌, refl, sym, ap, ◌∙◌, true, Option, List, [], ◌∷◌, ◌++◌,
}
use container_web_tty.Terminal.{docker_exit}
use container_web_tty.Docker.Tty.{Connection, new_connection, write, write_all, exit}

module _ (conn : ℕ → Bytes → ℕ × Option Bytes) where
  -- The parts of the writes, from the i-th on, that the connection takes.
  unfoldable pub parts : ℕ → List Bytes → List Bytes
  parts i [] = []
  parts i (p ∷ ps) = take (conn i p).0 p ∷ parts (i + 1) ps

  write_all-parts :
      (ps : List Bytes) (c : Connection)
      → (write_all conn ps c).taken ≡ c.taken ++ concat (parts c.writes ps)
  unfolding write_all write parts
  write_all-parts [] c = sym (append-nil c.taken)
  write_all-parts (p ∷ ps) c =
      write_all-parts ps (write conn p c).1
      ∙ append_assoc c.taken (take (conn c.writes p).0 p) (concat (parts (c.writes + 1) ps))

  write_all-append :
      (ps qs : List Bytes) (c : Connection)
      → write_all conn (ps ++ qs) c ≡ write_all conn qs (write_all conn ps c)
  unfolding write_all
  write_all-append [] qs c = refl
  write_all-append (p ∷ ps) qs c = write_all-append ps qs (write conn p c).1

  -- What a session of writes and its Exit send to the container: of each write the part that the
  -- connection takes, in their order, and as the last of them ^C and ^D, each with a return, in one
  -- write; then the connection is closed.
  pub session_taken :
      (ps : List Bytes) (close : Option Bytes)
      → let ended = (exit conn close (write_all conn ps new_connection)).1 in
        (ended.taken ≡ concat (parts 0 (ps ++ (3 ∷ 13 ∷ 4 ∷ 13 ∷ []) ∷ []))) × (ended.closed ≡ true)
  unfolding exit docker_exit
  session_taken ps close = (
    ap (λ c. c.taken) (sym (write_all-append ps docker_exit new_connection))
        ∙ write_all-parts (ps ++ docker_exit) new_connection,
    refl,
  )
