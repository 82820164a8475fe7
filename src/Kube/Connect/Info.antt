-- ===== src/Kube/Connect/Info.antt =====
-- container/kube/kubectl.go: what a new client knows of the containers.
use container_web_tty.Base.{
  ◌==◌, Bool-cases, Option-cases, length, is_empty, Bytes, str, Dict, lookup, ℕ, ◌≡◌, refl, ap, ◌∙◌,
  subst, ◌⊎◌, inl, inr, Bool, true, false, Option, none, some, List, [], ◌∷◌, ◌++◌, arith,
}
use container_web_tty.Base.{All}
use container_web_tty.Config.{KubeConfig, shell_list}
use container_web_tty.Types.{Container}
use container_web_tty.Types.Containers
use container_web_tty.Types.Containers.{Containers}
use container_web_tty.Types.Containers.Exact.{last_named, find-set, lookup-put_all}
use container_web_tty.Kube.Client.{
  Api, Pod, StatusContainer, list, get_info, get_shell, exist, first_shell, find_info,
  pod_containers, status_containers, status_container, container_map, trim_container_id_prefix,
}
use container_web_tty.Kube.Connect.{connected, with_client, new_cli}

-- A container as List gives it: with an ID, and no shell yet.
abbrev pub IsBare : Container → Type 0
IsBare c = (is_empty c.id ≡ false) × (is_empty c.shell ≡ true)

All-append : {A : Type 0} (P : A → Type 0) (xs ys : List A) → All P xs → All P ys → All P (xs ++ ys)
All-append P [] ys h k = k
All-append P (x ∷ xs) ys h k = (h.0, All-append P xs ys h.1 k)

module _ (api : Api) where
  status_container-IsBare :
      (pod : Pod) (specs : Dict Container) (s : StatusContainer)
      → All IsBare (status_container api pod specs s)
  unfolding status_container
  status_container-IsBare pod specs s =
      elim (Bool-cases (is_empty (trim_container_id_prefix s.container_id))) [
        | inl e ↦ rw (e, status_container) tt
        | inr e ↦ rw (e, status_container) ((e, refl), tt)
      ]

  status_containers-IsBare :
      (pod : Pod) (specs : Dict Container) (ss : List StatusContainer)
      → All IsBare (status_containers api pod specs ss)
  unfolding status_containers
  status_containers-IsBare pod specs [] = tt
  status_containers-IsBare pod specs (s ∷ ss) =
      All-append IsBare (status_container api pod specs s) (status_containers api pod specs ss)
        (status_container-IsBare pod specs s) (status_containers-IsBare pod specs ss)

  pod_containers-IsBare : (pods : List Pod) → All IsBare (pod_containers api pods)
  unfolding pod_containers
  pod_containers-IsBare [] = tt
  pod_containers-IsBare (pod ∷ pods) =
      All-append IsBare
        (status_containers api pod (container_map pod.containers []) pod.container_statuses)
        (pod_containers api pods)
        (status_containers-IsBare pod (container_map pod.containers []) pod.container_statuses)
        (pod_containers-IsBare pods)

last_named-All :
    (P : Container → Type 0) (cid : Bytes) (xs : List Container) (x : Container)
    → All P xs
    → last_named cid xs ≡ some x
    → P x
unfolding last_named
last_named-All P cid [] x h e = cc
last_named-All P cid (y ∷ ys) x (hy, h) e = elim (Option-cases (last_named cid ys)) [
  | inl gone ↦ let same : y ≡ x = ground arith in subst P same hy
  | inr (z, found) ↦
      let same : z ≡ x = ground arith in subst P same (last_named-All P cid ys z h found)
]

length-lookup :
    (k : Bytes) (m : Dict Container) (x : Container) → lookup k m ≡ some x → length m == 0 ≡ false
unfolding lookup
length-lookup k [] x e = cc
length-lookup k ((j, y) ∷ m) x e = ground arith

-- A cache with an entry is not empty.
len-set :
    (xs : List Container) (s : Containers) (cid : Bytes) (x : Container)
    → last_named cid xs ≡ some x
    → Containers.len (Containers.set xs s) == 0 ≡ false
unfolding Containers.len Containers.set Containers.init
len-set xs s cid x e =
    let there : lookup cid (Containers.put_all xs []) ≡ some x =
      lookup-put_all cid xs [] ∙ rw e refl in
    ground (arith, length-lookup cid (Containers.put_all xs []) x there)

get_info-found :
    (api : Api) (cid : Bytes) (k : Containers) (x : Container)
    → Containers.len k == 0 ≡ false
    → Containers.find cid k ≡ x
    → is_empty x.id ≡ false
    → is_empty x.shell ≡ true
    → (get_info api cid k).1 ≡ record x { shell = get_shell api cid k }
unfolding get_info find_info
get_info-found api cid k x filled found named bare = rw (filled, get_info, found, named, bare) refl

with_client-connected :
    (build_config : Bytes → ℕ ⊎ Bytes) (new_for_config : ℕ → Api ⊎ Bytes)
    (namespaces : Api → Option Bytes) (api : Api) (pods : List Pod)
    → namespaces api ≡ none
    → api.list_pods ≡ some pods
    → with_client build_config new_for_config namespaces api
      ≡ connected api (Containers.set (pod_containers api pods) Containers.no_containers)
unfolding with_client list pod_containers
with_client-connected build_config new_for_config namespaces api pods s l =
    rw (s, with_client, l, list) refl

-- The first path of a list that passes a test, or the empty one where none does.
abbrev pub IsFirst : (Bytes → Bool) → List Bytes → Bytes → Type 0
IsFirst has paths sh =
    ((before behind : List Bytes) × (paths ≡ before ++ sh ∷ behind)
      × All (λ p. has p ≡ false) before
      × (has sh ≡ true))
    ⊎ ((sh ≡ []) × All (λ p. has p ≡ false) paths)

-- `ls` of the path succeeds in a container of a pod.
abbrev pub has_path : Api → Container → Bytes → Bool
has_path api x path =
    elim (api.execute (record {
      pod_name = x.pod_name;
      namespace = x.namespace;
      subresource = str "exec";
      params =
          (str "container", x.container_name)
          ∷ (str "command", str "ls")
          ∷ (str "command", path)
          ∷ (str "stdout", str "true")
          ∷ (str "stdin", str "false")
          ∷ (str "tty", str "false")
          ∷ [];
    })) [ none ↦ true | some e ↦ false ]

IsFirst-cons :
    (has : Bytes → Bool) (p sh : Bytes) (ps : List Bytes)
    → has p ≡ false
    → IsFirst has ps sh
    → IsFirst has (p ∷ ps) sh
IsFirst-cons has p sh ps e (inl (before, behind, cut, skipped, found)) =
    inl (p ∷ before, behind, ap (λ xs. p ∷ xs) cut, (e, skipped), found)
IsFirst-cons has p sh ps e (inr (gone, skipped)) = inr (gone, (e, skipped))

module _ (api : Api) (cid : Bytes) (k : Containers) (x : Container) where
  exist-has_path :
      (path : Bytes)
      → Containers.find cid k ≡ x
      → is_empty x.id ≡ false
      → exist api cid path k ≡ has_path api x path
  unfolding exist
  exist-has_path path found named = rw (exist, found, named) refl

  first_shell-IsFirst :
      (shs : List Bytes)
      → Containers.find cid k ≡ x
      → is_empty x.id ≡ false
      → IsFirst (has_path api x) shs (first_shell api cid shs k)
  unfolding first_shell
  first_shell-IsFirst [] found named = inr (refl, tt)
  first_shell-IsFirst (sh ∷ shs) found named =
      let same = exist-has_path sh found named in
      elim (Bool-cases (has_path api x sh)) [
        | inl e ↦ rw (first_shell, same ∙ e) (inl ([], shs, refl, tt, e))
        | inr e ↦
            rw (first_shell, same ∙ e)
              (IsFirst-cons (has_path api x) sh _ shs e (first_shell-IsFirst shs found named))
      ]

-- A new client, made while the API server lists these pods, answers GetInfo for the ID of one of
-- their containers, or for the first twelve bytes of it, with the last container of that name in
-- the pods, and with a shell: the first of the known shells of which `ls` succeeds then in this
-- container of its own pod, or none where it succeeds of none.
pub new_cli_info :
    (build_config : Bytes → ℕ ⊎ Bytes) (new_for_config : ℕ → Api ⊎ Bytes)
    (namespaces : Api → Option Bytes) (conf : KubeConfig) (config : ℕ) (api api' : Api)
    (pods : List Pod) (cid : Bytes) (x : Container)
    → build_config conf.config_path ≡ inl config
    → new_for_config config ≡ inl api
    → namespaces api ≡ none
    → api.list_pods ≡ some pods
    → last_named cid (pod_containers api pods) ≡ some x
    → (k : Containers) × (sh : Bytes) × (new_cli build_config new_for_config namespaces conf
        ≡ connected api k)
      × ((get_info api' cid k).1 ≡ record x { shell = sh })
      × IsFirst (has_path api' x) shell_list sh
unfolding new_cli get_shell
new_cli_info build_config new_for_config namespaces conf config api api' pods cid x b n s l e =
    let xs = pod_containers api pods in
    let k = Containers.set xs Containers.no_containers in
    let (named, bare) = last_named-All IsBare cid xs x (pod_containers-IsBare api pods) e in
    let found = find-set xs Containers.no_containers cid x e in
    (
      k,
      get_shell api' cid k,
      rw (b, n, new_cli)
          (with_client-connected build_config new_for_config namespaces api pods s l),
      get_info-found api' cid k x (len-set xs Containers.no_containers cid x e) found named bare,
      first_shell-IsFirst api' cid k x shell_list found named,
    )
