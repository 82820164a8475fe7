-- ===== src/Docker/Client.antt =====
-- container/docker/docker.go: `DockerCli`. What the Docker daemon answers during a call is a record
-- of functions, `Daemon`; `none` and `fails` stand for its errors. A call gets the time of its clock,
-- one reading for all that it makes.
pub mod Listing
mod Info
mod Tests
use mathlib.Core.Option
use container_web_tty.Base.{
  ltb, ◌==◌, if◌then◌else◌, is_empty, Bytes, str, bytes_eq, ℕ, Bool, true, false, not, ◌&&◌, ◌||◌,
  Option, none, some, List, [], ◌∷◌,
}
use container_web_tty.Types.{Container, no_container}
use container_web_tty.Types.Containers.{Containers}
use container_web_tty.Types.Containers
use container_web_tty.Types.Tty.{since}
use container_web_tty.Config.{shell_list}
use container_web_tty.Docker.Options.{ListOptions}

-- `container.Summary`, as far as it is read. The networks are in the order of the map's iteration,
-- and a nil entry of the map is `none`, as is a nil pointer to all of them.
pub record Summary : Type 0 where
  pub id : Bytes
  pub names : List Bytes
  pub image : Bytes
  pub command : Bytes
  pub state : Bytes
  pub status : Bytes
  pub networks : Option (List (Option Bytes))

-- `container.InspectResponse`. `command` is the text of `Config.Cmd`, `none` where `Config` is nil, and
-- `status` is that of `State`, `none` where `State` is nil.
pub record Inspect : Type 0 where
  pub id : Bytes
  pub name : Bytes
  pub image : Bytes
  pub command : Option Bytes
  pub status : Option Bytes
  pub networks : Option (List (Option Bytes))

-- `container.ExecOptions`, as far as `Exec` sets it.
pub record ExecConfig : Type 0 where
  pub privileged : Bool
  pub cmd : List Bytes
  pub env : List Bytes
  pub user : Bytes

pub data Created : Type 0 where
  created : Bytes → Created
  fails : Bytes → Created

pub record Daemon : Type 0 where
  pub container_list : ListOptions → Option (List Summary)
  pub container_inspect : Bytes → Option Inspect
  pub container_stat_path : Bytes → Bytes → Bool
  pub container_start : Bytes → Option Bytes
  pub container_stop : Bytes → Option Bytes
  pub container_restart : Bytes → Option Bytes
  pub exec_create : Bytes → ExecConfig → Created
  pub exec_attach : Bytes → Option Bytes

pub record DockerCli : Type 0 where
  pub containers : Containers
  pub list_options : ListOptions
  pub last_list : ℕ

abbrev pub minute : ℕ
minute = 60000000000

-- The addresses of the networks that are not nil.
abbrev pub addresses : List (Option Bytes) → List Bytes
addresses [] = []
addresses (none ∷ ns) = addresses ns
addresses (some ip ∷ ns) = ip ∷ addresses ns

-- `getContainerIP`. A nil pointer is a value of the interface, and reading its networks panics:
-- `none`.
unfoldable pub get_container_ip : Option (List (Option Bytes)) → Option (List Bytes)
get_container_ip none = none
get_container_ip (some ns) =
    some (if is_empty (addresses ns) then str "null" ∷ [] else addresses ns)

module _ (daemon : Daemon) where
  unfoldable pub exist : Bytes → Bytes → Bool
  exist cid path = daemon.container_stat_path cid path

  -- The first of the shells that exists.
  unfoldable pub first_shell : Bytes → List Bytes → Bytes
  first_shell cid [] = []
  first_shell cid (sh ∷ shs) = if exist cid sh then sh else first_shell cid shs

  unfoldable pub get_shell : Bytes → Bytes
  get_shell cid = first_shell cid shell_list

  -- The zero value without a `Config`, and a panic without a `State` or `NetworkSettings`.
  unfoldable pub convert_to_container : Inspect → Option Container
  unfolding get_container_ip
  convert_to_container r = elim r.command [
    | none ↦ some no_container
    | some command ↦ elim (get_container_ip r.networks) [
      | none ↦ none
      | some ips ↦
          Option.map
            (λ status. record no_container {
              id = r.id;
              name = r.name;
              image = r.image;
              command = command;
              ips = ips;
              status = status;
              state = status;
              shell = get_shell r.id;
            })
            r.status
    ]
  ]

-- `container.Names[0][1:]`, where `none` is a panic.
unfoldable pub first_name : List Bytes → Option Bytes
first_name [] = none
first_name ([] ∷ ns) = none
first_name ((c ∷ name) ∷ ns) = some name

abbrev pub summary_container : Summary → Bytes → List Bytes → Bytes → Container
summary_container s name ips shell = record no_container {
  id = s.id;
  name = name;
  image = s.image;
  command = s.command;
  ips = ips;
  status = s.status;
  state = s.state;
  shell = shell;
}

-- The loop of `listContainers`, with its variables `ips` and `shell`.
unfoldable pub convert_all :
    Containers → List Summary → List Bytes → Bytes → Option (List Container)
convert_all known [] ips shell = some []
convert_all known (s ∷ rest) ips shell =
    let old = Containers.find s.id known in
    let is_known = not (is_empty old.id) in
    let shell' = if is_known then old.shell else shell in
    elim (if is_known then some old.ips else get_container_ip s.networks) [
      | none ↦ none
      | some ips' ↦
          let others = convert_all known rest ips' shell' in
          elim (first_name s.names) [
            | none ↦ none
            | some name ↦ Option.map (◌∷◌ (summary_container s name ips' shell')) others
          ]
    ]

-- What `listContainers` leaves and returns; `none` is a panic.
abbrev pub Listed : Type 0
Listed = Option (DockerCli × List Container)

module _ (daemon : Daemon) where
  unfoldable pub list_containers : ℕ → Bool → DockerCli → Listed
  list_containers now force d =
      if ltb (since now d.last_list) minute && not force
      then some
          (record d { containers = Containers.init d.containers }, Containers.list d.containers)
      else elim (daemon.container_list d.list_options) [
        | none ↦ some (d, [])
        | some cs ↦
            Option.map
              (λ xs.
                (record d { containers = Containers.set xs d.containers; last_list = now }, xs))
              (convert_all d.containers cs [] [])
      ]

  unfoldable pub list : ℕ → DockerCli → Listed
  list now d = list_containers now false d

  -- The last part of `GetInfo`: the container is asked for at the daemon. No result is a panic.
  unfoldable pub inspect_info : Bytes → DockerCli → DockerCli × Option Container
  inspect_info cid d = elim (daemon.container_inspect cid) [
    | none ↦ (d, some no_container)
    | some r ↦ elim (convert_to_container daemon r) [
      | none ↦ (d, none)
      | some c ↦ (
        (if is_empty c.id then d else record d { containers = Containers.append c d.containers }),
        some c,
      )
    ]
  ]

  -- `GetInfo` after the list was filled.
  unfoldable pub find_info : Bytes → DockerCli → DockerCli × Option Container
  unfolding inspect_info
  find_info cid d =
      let c = Containers.find cid d.containers in
      let shell = get_shell daemon cid in
      if is_empty c.id
      then inspect_info cid d
      else if is_empty c.shell
      then (
        record d { containers = Containers.set_shell cid shell d.containers },
        some (record c { shell = shell }),
      )
      else (d, some c)

  unfoldable pub get_info : ℕ → Bytes → DockerCli → DockerCli × Option Container
  unfolding find_info
  get_info now cid d =
      if Containers.len d.containers == 0
      then elim (list now d) [ none ↦ (d, none) | some (d', xs) ↦ find_info cid d' ]
      else find_info cid d

  -- An event of the daemon, as `watchEvents` handles it.
  unfoldable pub on_event : ℕ → Bytes → Bytes → DockerCli → Option DockerCli
  on_event now kind action d =
      if not (bytes_eq kind (str "container"))
      then some d
      else if bytes_eq action (str "start") || bytes_eq action (str "destroy")
      then Option.map (λ (d', xs). d') (list_containers now true d)
      else some d

  unfoldable pub start : Bytes → Option Bytes
  start cid = daemon.container_start cid

  unfoldable pub stop : Bytes → Option Bytes
  stop cid = daemon.container_stop cid

  unfoldable pub restart : Bytes → Option Bytes
  restart cid = daemon.container_restart cid
