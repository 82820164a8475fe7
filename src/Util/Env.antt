-- ===== src/Util/Env.antt =====
-- util/util.go: the home directory, the paths below it, and the names of environment variables.
-- `getenv` is os.Getenv, and `goos` is runtime.GOOS.
mod Names
mod Tests
use container_web_tty.Base.{
  leb, ◌==◌, if◌then◌else◌, is_empty, Bytes, str, bytes_eq, ℕ, ◌-◌, ◌&&◌, List, [], ◌∷◌, ◌++◌, map,
}
use container_web_tty.Base.FilePath.{join_path}

-- `HomeDIR`
unfoldable pub home_dir : (Bytes → Bytes) → Bytes
home_dir getenv =
    let h = getenv (str "HOME") in if is_empty h then getenv (str "USERPROFILE") else h

-- `DockerCliPath`
unfoldable pub docker_cli_path : Bytes → Bytes
docker_cli_path goos =
    if bytes_eq goos (str "darwin") then str "/usr/local/bin/docker" else str "/usr/bin/docker"

-- `KubeConfigPath`, whose three elements are joined two at a time.
unfoldable pub kube_config_path : (Bytes → Bytes) → Bytes
unfolding home_dir join_path
kube_config_path getenv =
    let home = home_dir getenv in
    if is_empty home then [] else join_path (join_path home (str ".kube")) (str "config")

-- strings.ToUpper of an ASCII character.
abbrev pub upper_char : ℕ → ℕ
upper_char c = if leb 97 c && leb c 122 then c - 32 else c

-- strings.Replace of `-` by `_`.
abbrev pub underscore : ℕ → ℕ
underscore c = if c == 45 then 95 else c

-- `EnvVars`, on an ASCII text.
unfoldable pub env_vars : Bytes → List Bytes
env_vars e = (str "WEB_TTY_" ++ map underscore (map upper_char e)) ∷ []
