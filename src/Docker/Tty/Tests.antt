-- ===== src/Docker/Tty/Tests.antt =====
-- Tests of container/docker/slave.go.
use container_web_tty.Base.{
  ◌==◌, if◌then◌else◌, length, Bytes, str, ℕ, ◌≡◌, true, Option, none, some, [], ◌∷◌, ◌++◌,
}
use container_web_tty.Docker.Tty.{new_connection, write_all, exit}
use container_web_tty.Docker.Tty.Session.{parts, session_taken}

-- The second write is cut.
abbrev conn : ℕ → Bytes → ℕ × Option Bytes
conn i p = if i == 1 then (1, some (str "short write")) else (length p, none)

session_taken_test :
    let ended = (exit conn none (write_all conn (str "ls" ∷ str "pwd" ∷ []) new_connection)).1 in
    (ended.taken ≡ str "lsp" ++ 3 ∷ 13 ∷ 4 ∷ 13 ∷ []) × (ended.closed ≡ true)
unfolding parts
session_taken_test = session_taken conn (str "ls" ∷ str "pwd" ∷ []) none
