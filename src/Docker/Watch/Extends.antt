-- ===== src/Docker/Watch/Extends.antt =====
-- container/docker/docker.go: what the calls within a minute of a listing leave of it.
use mathlib.Core.Option
use mathlib.Core.List.{map-append, append-nil}
use container_web_tty.Base.{
  ltb, ◌==◌, Bool-cases, Option-cases, is_empty, Bytes, str, bytes_eq, ℕ, ◌≡◌, refl, sym, ap, ◌∙◌,
  ◌⊎◌, inl, inr, Bool, true, false, ◌&&◌, ◌||◌, some, List, [], ◌∷◌, ◌++◌, map, arith,
}
use container_web_tty.Types.{Container}
use container_web_tty.Types.Containers
use container_web_tty.Types.Containers.{Containers}
use container_web_tty.Types.Tty.{since}
use container_web_tty.Docker.Client.{
  on_event, get_shell, DockerCli, Daemon, minute, list_containers, list, find_info, inspect_info,
  get_info,
}
use container_web_tty.Docker.Watch.Adds.{adds, inspected}
use container_web_tty.Docker.Watch.{Happening, event, lists, infos, recovered}

-- The IDs that List shows from the cache.
abbrev pub ids_of : DockerCli → List Bytes
ids_of d = map (λ (c : Container). c.id) (Containers.list d.containers)

-- The events at which the cache is filled again.
abbrev pub is_change : Bytes → Bytes → Bool
is_change kind action =
    bytes_eq kind (str "container")
    && (bytes_eq action (str "start") || bytes_eq action (str "destroy"))

-- Within a minute of the listing at `t` a call is answered from the cache.
abbrev pub IsFresh : ℕ → Happening → Type 0
IsFresh t (event now daemon kind action) = is_change kind action ≡ false
IsFresh t (lists now daemon) = ltb (since now t) minute ≡ true
IsFresh t (infos now daemon cid) = ltb (since now t) minute ≡ true

-- Since the listing at `t` List shows these IDs.
pub record Tracks (t : ℕ) (ids : List Bytes) (d : DockerCli) : Type 0 where
  pub listed_at : d.last_list ≡ t
  pub shown : ids_of d ≡ ids

list-append :
    (c : Container) (s : Containers)
    → is_empty c.id ≡ false
    → Containers.list (Containers.append c s) ≡ Containers.list s ++ c ∷ []
unfolding Containers.list Containers.append Containers.init
list-append c s e = ground arith

list-set_shell :
    (cid shell : Bytes) (s : Containers)
    → Containers.list (Containers.set_shell cid shell s) ≡ Containers.list s
unfolding Containers.list Containers.set_shell Containers.init
list-set_shell cid shell s = ground arith

list-init : (s : Containers) → Containers.list (Containers.init s) ≡ Containers.list s
unfolding Containers.list Containers.init
list-init s = ground arith

-- A call that keeps the time of the listing and adds these IDs at the end of the list.
abbrev pub Extends : List Bytes → DockerCli → DockerCli → Type 0
Extends more d d' = (d'.last_list ≡ d.last_list) × (ids_of d' ≡ ids_of d ++ more)

same-Extends :
    (d d' : DockerCli)
    → d'.last_list ≡ d.last_list
    → Containers.list d'.containers ≡ Containers.list d.containers
    → Extends [] d d'
same-Extends d d' t l = (t, ap (map (λ (c : Container). c.id)) l ∙ sym (append-nil (ids_of d)))

pub Tracks-Extends :
    (t : ℕ) (ids more : List Bytes) (d d' : DockerCli)
    → Tracks t ids d
    → Extends more d d'
    → Tracks t (ids ++ more) d'
Tracks-Extends t ids more d d' h (same, grown) = record {
  listed_at = same ∙ h.listed_at;
  shown = grown ∙ ap (λ xs. xs ++ more) h.shown;
}

init_idem : (s : Containers) → Containers.init (Containers.init s) ≡ Containers.init s
unfolding Containers.init
init_idem s = ground arith

find-init :
    (cid : Bytes) (s : Containers) → Containers.find cid (Containers.init s) ≡ Containers.find cid s
unfolding Containers.find
find-init cid s = rw (init_idem s) refl

module _ (daemon : Daemon) where
  inspect_info-Extends :
      (cid : Bytes) (d : DockerCli)
      → is_empty (Containers.find cid d.containers).id ≡ true
      → Extends (adds daemon cid d) d (inspect_info daemon cid d).0
  unfolding inspect_info adds
  inspect_info-Extends cid d missing = elim (Option-cases (daemon.container_inspect cid)) [
    | inl gone ↦ rw (inspect_info, adds, missing, gone) (same-Extends d d refl refl)
    | inr (r, found) ↦ elim (inspected daemon r) [
      | inl (inl p, whole) ↦
          rw (inspect_info, adds, missing, found, p, whole) (same-Extends d d refl refl)
      | inl (inr (c, p, e), whole) ↦
          rw (inspect_info, adds, missing, found, p, whole, e) (same-Extends d d refl refl)
      | inr (c, p, e, same, whole) ↦
          rw (inspect_info, adds, missing, found, p, whole, e, ← same)
            (
              refl,
              rw (list-append c d.containers e)
                  (map-append (λ (x : Container). x.id) (Containers.list d.containers) (c ∷ [])),
            )
    ]
  ]

  adds-known :
      (cid : Bytes) (d : DockerCli)
      → is_empty (Containers.find cid d.containers).id ≡ false
      → adds daemon cid d ≡ []
  unfolding adds
  adds-known cid d e = rw (adds, e) refl

  find_info-Extends :
      (cid : Bytes) (d : DockerCli) → Extends (adds daemon cid d) d (find_info daemon cid d).0
  unfolding find_info
  find_info-Extends cid d =
      let c = Containers.find cid d.containers in
      elim (Bool-cases (is_empty c.id)) [
        | inl e ↦ rw (e, find_info) (inspect_info-Extends cid d e)
        | inr e ↦ elim (Bool-cases (is_empty c.shell)) [
          | inl s ↦
              rw (adds-known cid d e, e, s, find_info)
                (same-Extends d
                  (record d {
                    containers = Containers.set_shell cid (get_shell daemon cid) d.containers;
                  })
                  refl (list-set_shell cid (get_shell daemon cid) d.containers))
          | inr s ↦ rw (adds-known cid d e, e, s, find_info) (same-Extends d d refl refl)
        ]
      ]

  pub fresh_list :
      (now : ℕ) (d : DockerCli)
      → ltb (since now d.last_list) minute ≡ true
      → list daemon now d
        ≡ some
            (record d { containers = Containers.init d.containers }, Containers.list d.containers)
  unfolding list list_containers
  fresh_list now d e = ground arith

  get_info-state :
      (now : ℕ) (cid : Bytes) (d : DockerCli)
      → ltb (since now d.last_list) minute ≡ true
      → ((get_info daemon now cid d).0 ≡ (find_info daemon cid d).0)
        ⊎ ((get_info daemon now cid d).0
            ≡ (find_info daemon cid (record d { containers = Containers.init d.containers })).0)
  unfolding get_info
  get_info-state now cid d e = elim (Bool-cases (Containers.len d.containers == 0)) [
    | inl z ↦ inr (rw (get_info, z, fresh_list now d e) refl)
    | inr z ↦ inl (rw (get_info, z) refl)
  ]

  adds-init :
      (cid : Bytes) (d : DockerCli)
      → adds daemon cid (record d { containers = Containers.init d.containers }) ≡ adds daemon cid d
  unfolding adds
  adds-init cid d = rw (find-init cid d.containers) refl

  pub get_info-Extends :
      (now : ℕ) (cid : Bytes) (d : DockerCli)
      → ltb (since now d.last_list) minute ≡ true
      → Extends (adds daemon cid d) d (get_info daemon now cid d).0
  get_info-Extends now cid d e = elim (get_info-state now cid d e) [
    | inl same ↦ rw same (find_info-Extends cid d)
    | inr filled ↦
        let d' : DockerCli = record d { containers = Containers.init d.containers } in
        let (t, grown) = find_info-Extends cid d' in
        rw filled (t, grown ∙ rw (list-init d.containers, adds-init cid d) refl)
  ]

  pub list-Extends :
      (now : ℕ) (d : DockerCli)
      → ltb (since now d.last_list) minute ≡ true
      → Extends [] d (recovered d (list daemon now d))
  unfolding recovered
  list-Extends now d e = rw (fresh_list now d e) (
      same-Extends d (record d { containers = Containers.init d.containers }) refl
        (list-init d.containers))

  pub unchanged :
      (now : ℕ) (kind action : Bytes) (d : DockerCli)
      → is_change kind action ≡ false
      → on_event daemon now kind action d ≡ some d
  unfolding on_event
  unchanged now kind action d e = ground arith

  pub on_event-forced :
      (now : ℕ) (kind action : Bytes) (d : DockerCli)
      → is_change kind action ≡ true
      → on_event daemon now kind action d
        ≡ Option.map (λ (d', xs). d') (list_containers daemon now true d)
  unfolding on_event
  on_event-forced now kind action d e = ground arith
