-- ===== src/Docker/Watch.antt =====
-- container/docker/docker.go: the goroutine of `NewCli`, which fills the cache and then follows the
-- daemon's events, among the calls of the other goroutines. What the daemon answers, and the time,
-- may be others at each of them.
mod Adds
mod Extends
mod Tracks
mod Tests
use mathlib.Core.Option
use container_web_tty.Base.{Bytes, ℕ, true, Option, none, some, List, [], ◌∷◌}
use container_web_tty.Docker.Client.{DockerCli, Daemon, list_containers, list, get_info, on_event}

-- What reaches the backend: an event of the daemon, a call of `List`, or one of `GetInfo`.
pub data Happening : Type 0 where
  event : ℕ → Daemon → Bytes → Bytes → Happening
  lists : ℕ → Daemon → Happening
  infos : ℕ → Daemon → Bytes → Happening

-- After a panic of `List` in a handler of the HTTP server, whose router recovers from it: the cache is
-- not changed by then.
unfoldable pub recovered : {A : Type 0} → DockerCli → Option (DockerCli × A) → DockerCli
recovered d none = d
recovered d (some (d', result)) = d'

-- `none` is the panic of the goroutine, which ends the program.
unfoldable pub happens : Happening → DockerCli → Option DockerCli
unfolding recovered
happens (event now daemon kind action) d = on_event daemon now kind action d
happens (lists now daemon) d = some (recovered d (list daemon now d))
happens (infos now daemon cid) d = some (get_info daemon now cid d).0

unfoldable pub watch : List Happening → DockerCli → Option DockerCli
unfolding happens
watch [] d = some d
watch (h ∷ hs) d = elim (happens h d) [ none ↦ none | some d' ↦ watch hs d' ]

-- The goroutine: a first listing, and then the events until the connection to the daemon is lost,
-- which ends the program.
unfoldable pub warm_up : ℕ → Daemon → List Happening → DockerCli → Option DockerCli
unfolding watch
warm_up now daemon hs d = elim (list_containers daemon now true d) [
  | none ↦ none
  | some (d', cs) ↦ watch hs d'
]
