-- ===== src/Docker/Connect.antt =====
-- container/docker/docker.go: `NewCli` up to its goroutine. The client that Docker's library makes
-- from the environment, or its error, is a parameter, and so is the answer of its ping.
mod Host
mod Tests
use container_web_tty.Base.{
  ◌==◌, if◌then◌else◌, Bytes, str, has_prefix, ℕ, ◌⊎◌, inl, inr, Option, none, some, [], ◌∷◌, ◌++◌,
}
use container_web_tty.Config.{DockerConfig}
use container_web_tty.Types.Containers
use container_web_tty.Types.Containers.{Containers}
use container_web_tty.Docker.Options.{
  Built, built, bad_filter, bad_number, panics, build_list_options,
}
use container_web_tty.Docker.Client.{DockerCli}

-- The address that is logged; `host[:1]` panics on an empty one.
unfoldable pub host_url : Bytes → Option Bytes
unfolding has_prefix
host_url [] = none
host_url (c ∷ host) =
    if c == b'/'
    then some (str "unix://" ++ (c ∷ host))
    else if has_prefix (str "tcp://") (c ∷ host)
    then some (c ∷ host)
    else some (str "tcp://" ++ (c ∷ host))

-- The new client with its options, an error, or a panic.
pub data Connected : Type 0 where
  connected : ℕ → DockerCli → Connected
  failed : Bytes → Connected
  -- The options are not read, for the text that is given.
  bad_options : Bytes → Connected
  crashed : Connected

module _ (from_env : ℕ ⊎ Bytes) (ping : ℕ → Option Bytes) where
  -- The client with the options that were built, after its ping.
  unfoldable pub connect : ℕ → Built → Connected
  connect client panics = crashed
  connect client (bad_filter t) = bad_options t
  connect client (bad_number t) = bad_options t
  connect client (built o) = elim (ping client) [
    | some e ↦ failed e
    | none ↦
        connected client
          (record { containers = Containers.no_containers; list_options = o; last_list = 0 })
  ]

  -- From `NewClientWithOpts` on.
  unfoldable pub with_env : Bytes → Connected
  unfolding connect build_list_options
  with_env ps_options = elim from_env [
    | inr e ↦ failed e
    | inl client ↦ connect client (build_list_options ps_options)
  ]

  unfoldable pub new_cli : DockerConfig → Connected
  unfolding host_url with_env
  new_cli conf = elim (host_url conf.docker_host) [
    | none ↦ crashed
    | some url ↦ with_env conf.ps_options
  ]
