-- ===== src/Backend.antt =====
-- container/container.go: what every backend offers (`Cli`), as a record of its methods over its
-- state, and the choice of a backend.
use container_web_tty.Base.{
  if◌then◌else◌, Bytes, str, bytes_eq, ℕ, ◌⊎◌, inl, inr, Option, List, ◌++◌,
}
use container_web_tty.Types.{Container, LogOptions}

-- The result of `Exec` and of `Logs`: a terminal or a reader, by a handle, or an error.
pub data Opened : Type 0 where
  opened : ℕ → Opened
  refused : Bytes → Opened

pub record Cli : Type 1 where
  pub State : Type 0
  pub get_info : Bytes → State → State × Container
  pub list : State → State × List Container
  pub start : Bytes → State → State × Option Bytes
  pub stop : Bytes → State → State × Option Bytes
  pub restart : Bytes → State → State × Option Bytes
  pub exec : Container → State → State × Opened
  pub logs : LogOptions → State → State × Opened

-- The backends by their names in the configuration.
pub data Kind : Type 0 where
  docker kube grpc : Kind

-- The `switch` of `NewCliBackend`: the constructor that is called, or the error.
unfoldable pub new_cli_backend : Bytes → Kind ⊎ Bytes
new_cli_backend kind =
    if bytes_eq kind (str "docker")
    then inl docker
    else if bytes_eq kind (str "kube")
    then inl kube
    else if bytes_eq kind (str "grpc")
    then inl grpc
    else inr (str "unknown backend type " ++ kind)
