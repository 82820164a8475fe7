-- ===== src/Audit/Tests.antt =====
-- Tests of audit/audit.go.
use container_web_tty.Base.{
  Bytes, str, bytes_eq, has_prefix, ◌≡◌, refl, true, false, none, some, List, [], ◌∷◌,
}
use container_web_tty.Audit.{Os, prepare, writes_to, Round, log_to}
use container_web_tty.Audit.Record.{recorded, log_to-recorded}
use container_web_tty.Samples.{web}

abbrev os : Os
os = record {
  getwd = some (str "/srv");
  is_not_exist = λ path. true;
  mkdir_all = λ path. true;
  create = λ path. true;
  unix = 1700000000;
}

abbrev brings : Bytes → Round
brings bytes = record { cancelled = false; bytes = bytes; read_failed = false; failed_after = none }

abbrev rounds : List Round
rounds =
    brings (str "hello ") ∷ brings (str "world") ∷ record (brings []) { read_failed = true } ∷ []

log_to-recorded_example : log_to rounds ≡ recorded rounds
log_to-recorded_example = log_to-recorded rounds

prepares_path :
    prepare os
      (record { dir = str "audit"; container_id = web.id; client_ip = str "10.0.0.1:52114" })
    ≡ writes_to (str "/srv/audit/4c01db0b339c/10.0.0.1-1700000000.log")
unfolding prepare has_prefix container_web_tty.Base.FilePath.join_path bytes_eq
    container_web_tty.Base.Int.show_nat
prepares_path = refl
