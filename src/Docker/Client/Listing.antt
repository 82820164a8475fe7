-- ===== src/Docker/Client/Listing.antt =====
-- container/docker/docker.go: what `listContainers` writes into the cache.
use mathlib.Core.Option.{some-injective}
use container_web_tty.Base.{
  if◌then◌else◌, Option-cases, is_empty, Bytes, ℕ, ◌≡◌, refl, inl, inr, true, false, not, some,
  List, [], ◌∷◌, map, arith,
}
use container_web_tty.Types.{Container}
use container_web_tty.Types.Containers.{Containers}
use container_web_tty.Types.Containers
use container_web_tty.Docker.Client.{
  DockerCli, Daemon, list_containers, get_container_ip, Summary, first_name, convert_all,
  summary_container,
}

-- The daemon lists containers that the cache does not have, each with a name and its networks.
abbrev pub AllNew : Containers → List Summary → Type 0
AllNew known [] = Unit {0}
AllNew known (s ∷ rest) =
    (is_empty (Containers.find s.id known).id ≡ true)
    × ((name : Bytes) × (first_name s.names ≡ some name))
    × ((ips : List Bytes) × (get_container_ip s.networks ≡ some ips))
    × AllNew known rest

abbrev pub AllHaveShell : Bytes → List Container → Type 0
AllHaveShell sh [] = Unit {0}
AllHaveShell sh (c ∷ cs) = (c.shell ≡ sh) × AllHaveShell sh cs

convert_new :
    (known : Containers) (rest : List Summary) (ips : List Bytes) (shell : Bytes)
    → AllNew known rest
    → (cs : List Container) × (convert_all known rest ips shell ≡ some cs) × AllHaveShell shell cs
unfolding convert_all
convert_new known [] ips shell h = ([], refl, tt)
convert_new known (s ∷ rest) ips shell (new, (name, named), (ips', networks), others) =
    let (cs, e, hs) = convert_new known rest ips' shell others in
    (
      summary_container s name ips' shell ∷ cs,
      rw (convert_all, new, networks, named, new, e),
      (refl, hs),
    )

-- The containers of the daemon's list, by their IDs.
convert-ids :
    (known : Containers) (ss : List Summary) (ips : List Bytes) (shell : Bytes)
    (cs : List Container)
    → convert_all known ss ips shell ≡ some cs
    → map (λ (c : Container). c.id) cs ≡ map (λ (s : Summary). s.id) ss
unfolding convert_all
convert-ids known [] ips shell cs e = rw (← some-injective [] cs e)
convert-ids known (s ∷ rest) ips shell cs e =
    let old = Containers.find s.id known in
    let is_known = not (is_empty old.id) in
    let shell' = if is_known then old.shell else shell in
    elim (Option-cases (if is_known then some old.ips else get_container_ip s.networks)) [
      | inl nowhere ↦ ground arith
      | inr (ips', placed) ↦ elim (Option-cases (convert_all known rest ips' shell')) [
        | inl failed ↦ ground arith
        | inr (others, found) ↦ ground (arith, convert-ids known rest ips' shell' others found)
      ]
    ]

list_of_set : (xs : List Container) (s : Containers) → Containers.list (Containers.set xs s) ≡ xs
unfolding Containers.list Containers.set Containers.init
list_of_set xs s = ground arith

-- A forced listing that the daemon answers and that does not panic returns the containers of the
-- answer, by their IDs and in its order, the cache then lists the same containers, and the time of
-- the listing is kept.
pub list_containers_forced :
    (daemon : Daemon) (now : ℕ) (d d' : DockerCli) (ss : List Summary) (cs : List Container)
    → daemon.container_list d.list_options ≡ some ss
    → list_containers daemon now true d ≡ some (d', cs)
    → (map (λ (c : Container). c.id) cs ≡ map (λ (s : Summary). s.id) ss)
      × (Containers.list d'.containers ≡ cs)
      × (d'.last_list ≡ now)
unfolding list_containers
list_containers_forced daemon now d d' ss cs answer e =
    elim (Option-cases (convert_all d.containers ss [] [])) [
      | inl failed ↦ ground arith
      | inr (xs, found) ↦
          ground (arith, convert-ids d.containers ss [] [] xs found, list_of_set xs d.containers)
    ]

-- The variable `shell` of the loop is not reset: in a forced listing new containers behind a first
-- one that the cache knows are entered with the known container's shell, whatever shells they have.
pub stale_shell :
    (daemon : Daemon) (now : ℕ) (d : DockerCli) (s : Summary) (rest : List Summary) (name : Bytes)
    → daemon.container_list d.list_options ≡ some (s ∷ rest)
    → first_name s.names ≡ some name
    → is_empty (Containers.find s.id d.containers).id ≡ false
    → AllNew d.containers rest
    → (d' : DockerCli) × (c : Container) × (cs : List Container) × (list_containers daemon now true
          d
        ≡ some (d', c ∷ cs))
      × AllHaveShell (Containers.find s.id d.containers).shell cs
unfolding list_containers convert_all
stale_shell daemon now d s rest name answer named known new =
    let old = Containers.find s.id d.containers in
    let (cs, e, hs) = convert_new d.containers rest old.ips old.shell new in
    let c = summary_container s name old.ips old.shell in
    (
      record d { containers = Containers.set (c ∷ cs) d.containers; last_list = now },
      c,
      cs,
      ground (arith, e),
      hs,
    )
