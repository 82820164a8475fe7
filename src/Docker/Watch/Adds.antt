-- ===== src/Docker/Watch/Adds.antt =====
-- container/docker/docker.go: what a call of GetInfo adds to the cache.
use container_web_tty.Base.{
  if◌then◌else◌, Bool-cases, Option-cases, is_empty, Bytes, str, ◌≡◌, refl, ◌⊎◌, inl, inr, Bool,
  true, false, not, ◌&&◌, Option, none, some, List, [], ◌∷◌, arith,
}
use container_web_tty.Types.{Container, no_container}
use container_web_tty.Types.Containers
use container_web_tty.Types.Containers.{Containers}
use container_web_tty.Docker.Client.{
  convert_to_container, get_shell, DockerCli, Daemon, Inspect, addresses, get_container_ip,
}

abbrev pub is_some : {A : Type 0} → Option A → Bool
is_some none = false
is_some (some x) = true

-- What a call of GetInfo adds: the ID of a container that the cache does not find and the daemon
-- does, unless the daemon's answer is without what is read of it.
unfoldable pub adds : Daemon → Bytes → DockerCli → List Bytes
adds daemon cid d =
    if not (is_empty (Containers.find cid d.containers).id)
    then []
    else elim (daemon.container_inspect cid) [
      | none ↦ []
      | some r ↦
          if is_some r.command && is_some r.status && is_some r.networks && not (is_empty r.id)
          then r.id ∷ []
          else []
    ]

-- What an inspection is converted to where nothing of it is missing.
abbrev whole_container : Daemon → Inspect → Bytes → List (Option Bytes) → Bytes → Container
whole_container daemon r command ns status = record no_container {
  id = r.id;
  name = r.name;
  image = r.image;
  command = command;
  ips = if is_empty (addresses ns) then str "null" ∷ [] else addresses ns;
  status = status;
  state = status;
  shell = get_shell daemon r.id;
}

-- The inspection of a container.
pub inspected :
    (daemon : Daemon) (r : Inspect)
    → (((convert_to_container daemon r ≡ none)
          ⊎ ((c : Container) × (convert_to_container daemon r ≡ some c) × (is_empty c.id ≡ true)))
        × (is_some r.command && is_some r.status && is_some r.networks && not (is_empty r.id)
            ≡ false))
      ⊎ ((c : Container) × (convert_to_container daemon r ≡ some c)
          × (is_empty c.id ≡ false)
          × (c.id ≡ r.id)
          × (is_some r.command && is_some r.status && is_some r.networks && not (is_empty r.id)
              ≡ true))
unfolding convert_to_container get_container_ip
inspected daemon r = elim (Option-cases r.command) [
  | inl a ↦ inl (inr (no_container, rw (a, convert_to_container) refl, refl), rw a refl)
  | inr (command, a) ↦ elim (Option-cases r.networks) [
    | inl b ↦ inl (inl (rw (a, b, convert_to_container) refl), rw (a, b) (ground arith))
    | inr (ns, b) ↦ elim (Option-cases r.status) [
      | inl c ↦ inl (inl (rw (a, b, c, convert_to_container) refl), rw (a, b, c) refl)
      | inr (status, c) ↦
          let x = whole_container daemon r command ns status in
          let converted : convert_to_container daemon r ≡ some x =
            rw (a, b, c, convert_to_container) refl in
          elim (Bool-cases (is_empty r.id)) [
            | inl e ↦ inl (inr (x, converted, e), rw (a, b, c, e) refl)
            | inr e ↦ inr (x, converted, e, refl, rw (a, b, c, e) refl)
          ]
    ]
  ]
]
