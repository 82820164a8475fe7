-- ===== src/Proxy/Run/Drained.antt =====
-- proxy/proxy.go: when the gRPC server has no stream.
use container_web_tty.Base.{Bytes, ◌≡◌, refl, true, false, Option, arith}
use container_web_tty.Proxy.Run.{
  Running, start, starting, returned, Step, listens, listen_fails, opens, closes, stops, refuses,
  drains, returns_stopped, returns_cancelled,
}

-- A gRPC server that has not begun, whose `GracefulStop` has returned, or that has returned itself,
-- takes no stream and has none.
pub record Drained (g : Running) : Type 0 where
  pub before : g.phase ≡ starting → (g.accepting ≡ false) × (g.streams ≡ 0) × (g.stopped ≡ false)
  pub drained : g.stopped ≡ true → (g.accepting ≡ false) × (g.streams ≡ 0)
  pub at_return :
      (e : Option Bytes) → g.phase ≡ returned e → (g.accepting ≡ false) × (g.streams ≡ 0)

pub Step-Drained : {s t : Running} → Step s t → Drained s → Drained t
Step-Drained {s} (listens p) v = record {
  before = λ h. cc;
  drained = λ h. (let z = (v.before p).2 in cc);
  at_return = λ e h. cc;
}
Step-Drained {s} (listen_fails x p) v = record {
  before = λ h. cc;
  drained = v.drained;
  at_return = λ e h. ((v.before p).0, (v.before p).1);
}
Step-Drained {s} (opens a) v = record {
  before = λ h. (let z = (v.before h).0 in cc);
  drained = λ h. (let z = (v.drained h).0 in cc);
  at_return = λ e h. (let z = (v.at_return e h).0 in cc);
}
Step-Drained {s} (closes k e) v = record {
  before = λ h. ((v.before h).0, (let z = (v.before h).1 in omega arith), (v.before h).2);
  drained = λ h. ((v.drained h).0, (let z = (v.drained h).1 in omega arith));
  at_return = λ x h. ((v.at_return x h).0, (let z = (v.at_return x h).1 in omega arith));
}
Step-Drained {s} (stops p g) v = record {
  before = λ h. cc;
  drained = v.drained;
  at_return = λ e h. cc;
}
Step-Drained {s} (refuses p) v = record {
  before = λ h. cc;
  drained = λ h. (refl, (v.drained h).1);
  at_return = λ e h. cc;
}
Step-Drained {s} (drains p a z) v = record {
  before = λ h. cc;
  drained = λ h. (a, z);
  at_return = λ e h. cc;
}
Step-Drained {s} (returns_stopped p x) v = record {
  before = λ h. cc;
  drained = v.drained;
  at_return = λ e h. v.drained x;
}
Step-Drained {s} (returns_cancelled p x) v = record {
  before = λ h. cc;
  drained = λ h. (refl, refl);
  at_return = λ e h. (refl, refl);
}

pub start-Drained : Drained start
start-Drained = record {
  before = λ h. (refl, refl, refl);
  drained = λ h. cc;
  at_return = λ e h. cc;
}
