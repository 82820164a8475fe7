-- ===== src/Docker/Connect/Host.antt =====
-- container/docker/docker.go: what the configured host decides in `NewCli`.
use container_web_tty.Base.{
  ◌==◌, if◌then◌else◌, Bytes, str, has_prefix, ℕ, ◌≡◌, refl, sym, ap, ◌∙◌, ◌≢◌, ◌⊎◌, Bool, true,
  false, Option, some, [], ◌∷◌,
}
use container_web_tty.Config.{DockerConfig}
use container_web_tty.Docker.Connect.{host_url, crashed, with_env, new_cli}

one_of :
    {A : Type 0}
    → (b c : Bool) (x y z : A)
    → (a : A) × ((if b then some x else if c then some y else some z) ≡ some a)
one_of true c x y z = (x, refl)
one_of false true x y z = (y, refl)
one_of false false x y z = (z, refl)

has_url : (host : Bytes) → host ≢ [] → (url : Bytes) × (host_url host ≡ some url)
unfolding host_url
has_url [] h = absurd (h refl)
has_url (c ∷ host) h = one_of (c == b'/') (has_prefix (str "tcp://") (c ∷ host)) _ _ _

new_cli-with_env :
    (from_env : ℕ ⊎ Bytes) (ping : ℕ → Option Bytes) (conf : DockerConfig)
    → conf.docker_host ≢ []
    → new_cli from_env ping conf ≡ with_env from_env ping conf.ps_options
unfolding new_cli
new_cli-with_env from_env ping conf h = let u = has_url conf.docker_host h in rw (u.1, new_cli) refl

-- The host of the configuration decides nothing but a panic: on the empty one `NewCli` panics, and
-- with the same options of docker ps any two other hosts give the same client or the same error.
pub host_ignored :
    (from_env : ℕ ⊎ Bytes) (ping : ℕ → Option Bytes) (conf conf' : DockerConfig)
    → conf.ps_options ≡ conf'.ps_options
    → (conf.docker_host ≡ [] → new_cli from_env ping conf ≡ crashed)
      × (conf.docker_host ≢ []
          → conf'.docker_host ≢ []
          → new_cli from_env ping conf ≡ new_cli from_env ping conf')
unfolding new_cli host_url
host_ignored from_env ping conf conf' same = (
  (λ e. rw e refl),
  λ h h'.
      new_cli-with_env from_env ping conf h
      ∙ (ap (with_env from_env ping) same ∙ sym (new_cli-with_env from_env ping conf' h')),
)
