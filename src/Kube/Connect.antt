-- ===== src/Kube/Connect.antt =====
-- container/kube/kubectl.go: `NewCli`. The configuration that client-go makes of the file, the client
-- that it makes of this, and the error of the list of namespaces are parameters.
mod Info
mod Tests
use container_web_tty.Base.{Bytes, ℕ, ◌⊎◌, inl, inr, Option, none, some}
use container_web_tty.Config.{KubeConfig}
use container_web_tty.Types.Containers
use container_web_tty.Types.Containers.{Containers}
use container_web_tty.Kube.Client.{Api, list}

-- The new client with its cache, or an error.
pub data Connected : Type 0 where
  connected : Api → Containers → Connected
  failed : Bytes → Connected

module _ (build_config : Bytes → ℕ ⊎ Bytes) (new_for_config : ℕ → Api ⊎ Bytes)
    (namespaces : Api → Option Bytes) where
  -- The error of the list of namespaces, and then the first listing, whose error is only logged.
  unfoldable pub with_client : Api → Connected
  unfolding list
  with_client api = elim (namespaces api) [
    | some e ↦ failed e
    | none ↦ connected api (list api Containers.no_containers).0
  ]

  unfoldable pub new_cli : KubeConfig → Connected
  unfolding with_client
  new_cli conf = elim (build_config conf.config_path) [
    | inr e ↦ failed e
    | inl config ↦ elim (new_for_config config) [ inr e ↦ failed e | inl api ↦ with_client api ]
  ]
