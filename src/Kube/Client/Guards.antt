-- ===== src/Kube/Client/Guards.antt =====
-- container/kube/kubectl.go: what may be asked of the API server.
use container_web_tty.Base.{
  Bool-cases, Option-cases, is_empty, Bytes, str, Dict, ◌≡◌, refl, ap, ◌≢◌, ◌⊎◌, inl, inr, false,
  none, List, [], ◌∷◌, ◌++◌, arith,
}
use container_web_tty.Types.{Container}
use container_web_tty.Types.Containers
use container_web_tty.Types.Containers.{Containers}
use container_web_tty.Kube.Client.{
  exec_cmds, command_params, trim_container_id_prefix, container_map, Api, Pod, PodRequest,
  StatusContainer, asks, is_completed, with_pod, exec, list, status_container, status_containers,
  pod_containers,
}

-- The container names a pod that the API server knows and that has not completed.
abbrev pub Runs : Api → Container → Type 0
Runs api c =
    (is_empty c.pod_name ≡ false)
    × (is_empty c.namespace ≡ false)
    × ((pod : Pod) × (api.get_pod c.namespace c.pod_name ≡ inl pod)
        × (is_completed pod.phase ≡ false))

pod_cases :
    (found : Pod ⊎ Bytes) → ((pod : Pod) × (found ≡ inl pod)) ⊎ ((e : Bytes) × (found ≡ inr e))
pod_cases (inl pod) = inl (pod, refl)
pod_cases (inr e) = inr (e, refl)

with_pod-Runs :
    (api : Api) (complaint : Bytes) (c : Container) (request q : PodRequest)
    → with_pod api complaint c request ≡ asks q
    → Runs api c × (q ≡ request)
unfolding with_pod
with_pod-Runs api complaint c request q e = elim (pod_cases (api.get_pod c.namespace c.pod_name)) [
  | inl (pod, found) ↦ ((ground arith, ground arith, (pod, found, ground arith)), ground arith)
  | inr (x, failed) ↦ ground arith
]

abbrev exec_request : Container → PodRequest
exec_request c = record {
  pod_name = c.pod_name;
  namespace = c.namespace;
  subresource = str "exec";
  params =
      (str "container", c.container_name)
      ∷ (str "stdin", str "true")
      ∷ (str "stdout", str "true")
      ∷ (str "tty", str "true")
      ∷ command_params (exec_cmds c);
}

-- `Exec` asks the API server only for a container of a known pod that has not completed, and then
-- for an exec in this pod.
pub exec-Runs :
    (api : Api) (c : Container) (q : PodRequest)
    → exec api c ≡ asks q
    → Runs api c
      × (q.pod_name ≡ c.pod_name)
      × (q.namespace ≡ c.namespace)
      × (q.subresource ≡ str "exec")
unfolding exec
exec-Runs api c q e =
    let (runs, same) =
      with_pod-Runs api (str "cannot exec into a container in a completed pod; current phase is ") c
        (exec_request c) q e in
    (
      runs,
      ap (λ (r : PodRequest). r.pod_name) same,
      ap (λ (r : PodRequest). r.namespace) same,
      ap (λ (r : PodRequest). r.subresource) same,
    )

abbrev pub AllHaveId : List Container → Type 0
AllHaveId [] = Unit {0}
AllHaveId (c ∷ cs) = (is_empty c.id ≡ false) × AllHaveId cs

AllHaveId-append : (cs ds : List Container) → AllHaveId cs → AllHaveId ds → AllHaveId (cs ++ ds)
AllHaveId-append [] ds h k = k
AllHaveId-append (c ∷ cs) ds h k = (h.0, AllHaveId-append cs ds h.1 k)

status_container-AllHaveId :
    (api : Api) (pod : Pod) (specs : Dict Container) (s : StatusContainer)
    → AllHaveId (status_container api pod specs s)
unfolding status_container
status_container-AllHaveId api pod specs s =
    elim (Bool-cases (is_empty (trim_container_id_prefix s.container_id))) [
      | inl e ↦ rw (e, status_container) tt
      | inr e ↦ rw (e, status_container) (e, tt)
    ]

status_containers-AllHaveId :
    (api : Api) (pod : Pod) (specs : Dict Container) (ss : List StatusContainer)
    → AllHaveId (status_containers api pod specs ss)
unfolding status_containers
status_containers-AllHaveId api pod specs [] = tt
status_containers-AllHaveId api pod specs (s ∷ ss) =
    AllHaveId-append (status_container api pod specs s) (status_containers api pod specs ss)
      (status_container-AllHaveId api pod specs s) (status_containers-AllHaveId api pod specs ss)

pod_containers-AllHaveId : (api : Api) (pods : List Pod) → AllHaveId (pod_containers api pods)
unfolding pod_containers
pod_containers-AllHaveId api [] = tt
pod_containers-AllHaveId api (pod ∷ pods) =
    AllHaveId-append
      (status_containers api pod (container_map pod.containers []) pod.container_statuses)
      (pod_containers api pods)
      (status_containers-AllHaveId api pod (container_map pod.containers []) pod.container_statuses)
      (pod_containers-AllHaveId api pods)

-- `List` returns no container without an ID, and where the API server answers, the cache then lists
-- what it returned.
pub list-AllHaveId :
    (api : Api) (k : Containers)
    → let (k', cs) = list api k in AllHaveId cs × (api.list_pods ≢ none → Containers.list k' ≡ cs)
unfolding list Containers.list Containers.set Containers.init
list-AllHaveId api k = elim (Option-cases api.list_pods) [
  | inl e ↦ rw (e, list) (tt, λ h. absurd (h refl))
  | inr (pods, e) ↦ rw (e, list) (pod_containers-AllHaveId api pods, λ h. ground arith)
]
