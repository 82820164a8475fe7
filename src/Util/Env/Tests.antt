-- ===== src/Util/Env/Tests.antt =====
-- Tests of util/util.go's paths and names.
use container_web_tty.Base.{
  if◌then◌else◌, Bytes, str, bytes_eq, has_prefix, split, join, ◌≡◌, refl, [], ◌∷◌, arith,
}
use container_web_tty.Util.Env.{home_dir, kube_config_path, env_vars, docker_cli_path}
use container_web_tty.Util.Env.Names.{env_vars-injective}

-- Only `HOME` is set.
abbrev getenv : Bytes → Bytes
getenv name = if bytes_eq name (str "HOME") then str "/home/mr/" else []

kube_path : kube_config_path getenv ≡ str "/home/mr/.kube/config"
unfolding kube_config_path bytes_eq home_dir container_web_tty.Base.FilePath.join_path
    container_web_tty.Base.FilePath.clean container_web_tty.Base.FilePath.clean_all
    container_web_tty.Base.FilePath.clean_step split join has_prefix
kube_path = refl

no_home : kube_config_path (λ name. []) ≡ []
unfolding kube_config_path home_dir
no_home = refl

grpc_port : env_vars (str "grpc-port") ≡ str "WEB_TTY_GRPC_PORT" ∷ []
unfolding env_vars
grpc_port = refl

docker_path : docker_cli_path (str "linux") ≡ str "/usr/bin/docker"
unfolding docker_cli_path bytes_eq
docker_path = refl

env_vars-injective_test : str "ctl-a" ≡ str "ctl-a"
env_vars-injective_test =
    env_vars-injective (str "ctl-a") (str "ctl-a") (ground arith) (ground arith) refl
