-- ===== src/Docker/Requests/Tests.antt =====
-- Tests of `Exec` and `Logs` in container/docker/docker.go.
use container_web_tty.Base.{if◌then◌else◌, str, ◌≡◌, refl, true, ◌&&◌, none, some}
use container_web_tty.Samples.{web}
use container_web_tty.Docker.LogParser.{parse_container_log}
use container_web_tty.Docker.Requests.{logs}

-- A failed request is returned with a parser.
logs_test :
    logs
      (λ r. if r.show_stderr && r.show_stdout then some r.tail else none)
      (record { id = web.id; follow = true; tail = str "10" })
    ≡ (parse_container_log, some (str "10"))
unfolding logs
logs_test = refl
