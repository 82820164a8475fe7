-- ===== src/Docker/Watch/Tracks.antt =====
-- container/docker/docker.go: for how long the cache lists what the daemon answered.
use mathlib.Core.Option
use container_web_tty.Base.{Bytes, none, some, List, [], ◌∷◌, ◌++◌, map}
use container_web_tty.Docker.Client.{Summary, DockerCli}
use container_web_tty.Docker.Watch.{happens, Happening, event, lists, infos}
use container_web_tty.Docker.Watch.Adds.{adds}

-- What is added by a happening.
abbrev pub adds_one : Happening → DockerCli → List Bytes
adds_one (event now daemon kind action) d = []
adds_one (lists now daemon) d = []
adds_one (infos now daemon cid) d = adds daemon cid d

-- What GetInfo adds in the course of the happenings.
unfoldable pub added : List Happening → DockerCli → List Bytes
added [] d = []
added (h ∷ hs) d = elim (happens h d) [ none ↦ [] | some d' ↦ adds_one h d ++ added hs d' ]

-- The IDs of the daemon's answer.
abbrev pub ids_in : List Summary → List Bytes
ids_in ss = map (λ (s : Summary). s.id) ss
