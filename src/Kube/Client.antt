-- ===== src/Kube/Client.antt =====
-- container/kube/kubectl.go: `KubeCli`. The API server's answers during a call are a record of
-- functions, `Api`; `none` stands for an error. `age` prints the time since a container's start.
pub mod Guards
mod Tests
use container_web_tty.Base.{
  ◌==◌, if◌then◌else◌, is_empty, Bytes, str, bytes_eq, trim_prefix, join, Dict, lookup, insert, ℕ,
  ◌/◌, ◌⊎◌, inl, inr, Bool, true, false, ◌||◌, Option, none, some, List, [], ◌∷◌, ◌++◌,
}
use container_web_tty.Base.Int.{show_nat}
use container_web_tty.Config.{shell_list}
use container_web_tty.Types.{Container, no_container, LogOptions}
use container_web_tty.Types.Containers
use container_web_tty.Types.Containers.{Containers}

-- A container of a pod's specification.
pub record SpecContainer : Type 0 where
  pub name : Bytes
  pub image : Bytes
  pub command : List Bytes

-- A container of a pod's status; `started` is the start time of a running one.
pub record StatusContainer : Type 0 where
  pub container_id : Bytes
  pub name : Bytes
  pub ready : Bool
  pub started : Option ℕ
  pub restart_count : ℕ

pub record Pod : Type 0 where
  pub name : Bytes
  pub namespace : Bytes
  pub pod_ip : Bytes
  pub host_ip : Bytes
  pub phase : Bytes
  pub containers : List SpecContainer
  pub container_statuses : List StatusContainer

-- The parameters of a request to a pod's subresource.
pub record PodRequest : Type 0 where
  pub pod_name : Bytes
  pub namespace : Bytes
  pub subresource : Bytes
  pub params : List (Bytes × Bytes)

pub record Api : Type 0 where
  pub list_pods : Option (List Pod)
  pub get_pod : Bytes → Bytes → Pod ⊎ Bytes
  pub execute : PodRequest → Option Bytes
  pub age : Option ℕ → Bytes

-- `trimContainerIDPrefix`
unfoldable pub trim_container_id_prefix : Bytes → Bytes
trim_container_id_prefix id = trim_prefix (str "containerd://") (trim_prefix (str "docker://") id)

-- `containerReady`
unfoldable pub container_ready : Bool → Bytes
container_ready ready = if ready then str "Ready" else str "Not Ready"

-- `containerMap`, of the specification: the command line and the image under the name.
unfoldable pub container_map : List SpecContainer → Dict Container → Dict Container
container_map [] m = m
container_map (s ∷ rest) m =
    container_map rest (
      insert s.name (record no_container { command = join (str " ") s.command; image = s.image }) m)

-- `containerMap[name]`
abbrev pub spec_of : Bytes → Dict Container → Container
spec_of name m = elim (lookup name m) [ some c ↦ c | none ↦ no_container ]

module _ (api : Api) where
  -- The container of a status, if its ID is not empty.
  unfoldable pub status_container : Pod → Dict Container → StatusContainer → List Container
  unfolding trim_container_id_prefix container_ready
  status_container pod specs s =
      let id = trim_container_id_prefix s.container_id in
      if is_empty id
      then []
      else record no_container {
        id = id;
        pod_name = pod.name;
        container_name = s.name;
        namespace = pod.namespace;
        name = s.name;
        state = container_ready s.ready ++ (str " / " ++ pod.phase);
        status =
            str "age: " ++ (api.age s.started ++ (str "; restart " ++ show_nat s.restart_count));
        ips =
            if bytes_eq pod.pod_ip pod.host_ip
            then pod.host_ip ∷ []
            else pod.pod_ip ∷ pod.host_ip ∷ [];
        image = (spec_of s.name specs).image;
        command = (spec_of s.name specs).command;
      }
        ∷ []

  unfoldable pub status_containers : Pod → Dict Container → List StatusContainer → List Container
  unfolding status_container
  status_containers pod specs [] = []
  status_containers pod specs (s ∷ rest) =
      status_container pod specs s ++ status_containers pod specs rest

  -- The loop over the pods.
  unfoldable pub pod_containers : List Pod → List Container
  unfolding status_containers container_map
  pod_containers [] = []
  pod_containers (pod ∷ pods) =
      status_containers pod (container_map pod.containers []) pod.container_statuses
      ++ pod_containers pods

  unfoldable pub list : Containers → Containers × List Container
  list k = elim api.list_pods [
    | none ↦ (k, [])
    | some pods ↦ (Containers.set (pod_containers pods) k, pod_containers pods)
  ]

  -- `exist`: `ls` of the path in the container.
  unfoldable pub exist : Bytes → Bytes → Containers → Bool
  exist cid path k =
      let info = Containers.find cid k in
      if is_empty info.id
      then false
      else elim (api.execute (record {
        pod_name = info.pod_name;
        namespace = info.namespace;
        subresource = str "exec";
        params =
            (str "container", info.container_name)
            ∷ (str "command", str "ls")
            ∷ (str "command", path)
            ∷ (str "stdout", str "true")
            ∷ (str "stdin", str "false")
            ∷ (str "tty", str "false")
            ∷ [];
      })) [ none ↦ true | some e ↦ false ]

  unfoldable pub first_shell : Bytes → List Bytes → Containers → Bytes
  first_shell cid [] k = []
  first_shell cid (sh ∷ shs) k = if exist cid sh k then sh else first_shell cid shs k

  unfoldable pub get_shell : Bytes → Containers → Bytes
  get_shell cid k = first_shell cid shell_list k

  -- `GetInfo` with the containers listed.
  unfoldable pub find_info : Bytes → Containers → Containers × Container
  find_info cid k =
      let c = Containers.find cid k in
      let shell = get_shell cid k in
      if is_empty c.id
      then (k, no_container)
      else if is_empty c.shell
      then (Containers.set_shell cid shell k, record c { shell = shell })
      else (k, c)

  unfoldable pub get_info : Bytes → Containers → Containers × Container
  unfolding find_info
  get_info cid k = if Containers.len k == 0 then find_info cid (list k).0 else find_info cid k

-- `Start`, `Stop` and `Restart` do nothing and report no error.
unfoldable pub start : Bytes → Option Bytes
start cid = none

unfoldable pub stop : Bytes → Option Bytes
stop cid = none

unfoldable pub restart : Bytes → Option Bytes
restart cid = none

-- The command line of `Exec`.
unfoldable pub exec_cmds : Container → List Bytes
exec_cmds c =
    if is_empty (c.exec).cmd
    then c.shell ∷ str "-l" ∷ []
    else c.shell ∷ str "-l" ∷ (c.exec).cmd ∷ []

-- `req.Param("command", cmd)` for each word.
unfoldable pub command_params : List Bytes → List (Bytes × Bytes)
command_params [] = []
command_params (w ∷ ws) = (str "command", w) ∷ command_params ws

-- What `Exec` and `Logs` send, or the error with which they end.
pub data Asked : Type 0 where
  asks : PodRequest → Asked
  fails : Bytes → Asked

abbrev pub is_completed : Bytes → Bool
is_completed phase = bytes_eq phase (str "Succeeded") || bytes_eq phase (str "Failed")

module _ (api : Api) where
  -- The checks at the head of both: the names, the pod, and its phase.
  unfoldable pub with_pod : Bytes → Container → PodRequest → Asked
  with_pod complaint c request =
      if is_empty c.pod_name || is_empty c.namespace
      then fails (str "PodName or Namespace is empty")
      else elim (api.get_pod c.namespace c.pod_name) [
        | inr e ↦ fails e
        | inl pod ↦ if is_completed pod.phase then fails (complaint ++ pod.phase) else asks request
      ]

  unfoldable pub exec : Container → Asked
  unfolding with_pod command_params exec_cmds
  exec c =
      with_pod (str "cannot exec into a container in a completed pod; current phase is ") c
        (record {
          pod_name = c.pod_name;
          namespace = c.namespace;
          subresource = str "exec";
          params =
              (str "container", c.container_name)
              ∷ (str "stdin", str "true")
              ∷ (str "stdout", str "true")
              ∷ (str "tty", str "true")
              ∷ command_params (exec_cmds c);
        })

  unfoldable pub logs : LogOptions → Containers → Containers × Asked
  unfolding with_pod
  logs o k =
      let (k', c) = get_info api o.id k in
      (
        k',
        with_pod (str "cannot get container logs in a completed pod; current phase is ") c (record {
          pod_name = c.pod_name;
          namespace = c.namespace;
          subresource = str "log";
          params =
              (str "follow", if o.follow then str "true" else str "false")
              ∷ (str "container", c.container_name)
              ∷ (str "tailLines", o.tail)
              ∷ [];
        }),
      )
