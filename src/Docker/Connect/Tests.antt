-- ===== src/Docker/Connect/Tests.antt =====
-- Tests of `NewCli` in container/docker/docker.go.
use container_web_tty.Base.{str, has_prefix, ◌≡◌, refl, ◌≢◌, inl, none, some, []}
use container_web_tty.Config.{DockerConfig}
use container_web_tty.Docker.Connect.{host_url, crashed, new_cli}
use container_web_tty.Docker.Connect.Host.{host_ignored}

abbrev local : DockerConfig
local = record { docker_host = str "/var/run/docker.sock"; ps_options = str "-a" }

abbrev remote : DockerConfig
remote = record { docker_host = str "tcp://10.0.0.7:2375"; ps_options = str "-a" }

host_ignored_test :
    (local.docker_host ≡ [] → new_cli (inl 1) (λ client. none) local ≡ crashed)
    × (local.docker_host ≢ []
        → remote.docker_host ≢ []
        → new_cli (inl 1) (λ client. none) local ≡ new_cli (inl 1) (λ client. none) remote)
host_ignored_test = host_ignored (inl 1) (λ client. none) local remote refl

-- A URL with the socket's scheme is taken for the name of a host.
unix_scheme : host_url (str "unix:///run/docker.sock") ≡ some (str "tcp://unix:///run/docker.sock")
unfolding host_url has_prefix
unix_scheme = refl
