-- ===== src/Proxy/Auth/Tests.antt =====
-- Tests of the handlers in proxy/server.go.
use container_web_tty.Base.{
  length, Bytes, str, bytes_eq, ◌≡◌, refl, ap, true, false, none, some, arith,
}
use container_web_tty.Samples.{backend}
use container_web_tty.Proxy.Convert.{convert_pb_container, convert_tp_container, convert_both_ways}
use container_web_tty.Samples.{web}
use container_web_tty.Proxy.Service.{fails, panics, auth_failed, acted}
use container_web_tty.Proxy.Auth.{
  Request, starts, reads_logs, handle, handle_denied, logs_nil_panics,
}

abbrev start_web : Bytes → Request
start_web token = starts (some (record { id = web.id; auth = token }))

handle_denied_example :
    handle backend (str "secret") (start_web (str "guess")) 5 ≡ (5, fails auth_failed)
handle_denied_example =
    handle_denied backend (str "secret") (str "guess") (start_web (str "guess")) 5 refl
      (λ e. omega (arith, ap length e))

-- With the token the container is started.
handle_starts : handle backend (str "secret") (start_web (str "secret")) 5 ≡ (6, acted none)
unfolding handle container_web_tty.Proxy.Service.start container_web_tty.Proxy.Service.guarded
    container_web_tty.Proxy.Service.check_nil container_web_tty.Proxy.Service.check_auth bytes_eq
handle_starts = refl

logs_nil_panics_test :
    handle backend
      (str "secret")
      (reads_logs (record { c = none; follow = true; tail = str "10" }))
      5
    ≡ (5, panics)
logs_nil_panics_test =
    logs_nil_panics backend (str "secret") (record { c = none; follow = true; tail = str "10" }) 5
      refl

convert_both_ways_test :
    (convert_pb_container (convert_tp_container web)
      ≡ record web { exec = record (web.exec) { privileged = false } })
    × (convert_tp_container (convert_pb_container (convert_tp_container web))
        ≡ convert_tp_container web)
convert_both_ways_test = convert_both_ways web (convert_tp_container web)
