-- ===== src/Docker/Client/Info.antt =====
-- container/docker/docker.go: `GetInfo` against the cache.
use container_web_tty.Base.{
  if◌then◌else◌, Bool-cases, is_empty, Bytes, bytes_eq_refl, lookup, insert, lookup-insert, ◌≡◌,
  refl, ap, inl, inr, true, false, some, arith,
}
use container_web_tty.Types.{Container}
use container_web_tty.Types.Containers
use container_web_tty.Types.Containers.{Containers}
use container_web_tty.Docker.Client.{Daemon, DockerCli, find_info, get_shell}

find_cached :
    (cid : Bytes) (s : Containers) (x : Container)
    → lookup cid (Containers.init s).c ≡ some x
    → Containers.find cid s ≡ x
unfolding Containers.find Containers.find_in
find_cached cid s x e = rw (e, Containers.find_in)

init_once : (s : Containers) → (Containers.init s).once ≡ true
unfolding Containers.init
init_once s = ground arith

init_again : (s : Containers) → s.once ≡ true → Containers.init s ≡ s
unfolding Containers.init
init_again s e = rw e

lookup-set_shell :
    (cid shell : Bytes) (s : Containers) (x : Container)
    → lookup cid (Containers.init s).c ≡ some x
    → lookup cid (Containers.init (Containers.set_shell cid shell s)).c
      ≡ some (record x { shell = shell })
unfolding Containers.set_shell
lookup-set_shell cid shell s x e =
    let s' : Containers = record (Containers.init s) {
      c = insert cid (record x { shell = shell }) (Containers.init s).c;
    } in
    let set : Containers.set_shell cid shell s ≡ s' = rw (e, Containers.set_shell) in
    let kept : Containers.init s' ≡ s' = init_again s' (init_once s) in
    rw (set, kept, lookup-insert, bytes_eq_refl cid)

-- Of a container with an ID that the cache has under the requested ID, `GetInfo` returns the entry, completed by
-- the shell that it finds, and the cache then holds the same under that ID.
pub find_info-cached :
    (daemon : Daemon) (cid : Bytes) (d : DockerCli) (x : Container)
    → lookup cid (Containers.init d.containers).c ≡ some x
    → is_empty x.id ≡ false
    → let (d', c) = find_info daemon cid d in
      (c ≡ some (record x { shell = if is_empty x.shell then get_shell daemon cid else x.shell }))
      × (some (Containers.find cid d'.containers) ≡ c)
unfolding find_info
find_info-cached daemon cid d x e n =
    let found : Containers.find cid d.containers ≡ x = find_cached cid d.containers x e in
    let shell = get_shell daemon cid in
    elim (Bool-cases (is_empty x.shell)) [
      | inl bare ↦
          rw (found, n, bare)
            (
              refl,
              ap some (
                  find_cached cid _ (record x { shell = shell })
                    (lookup-set_shell cid shell d.containers x e)),
            )
      | inr shelled ↦ rw (found, n, shelled) (refl, ap some found)
    ]
