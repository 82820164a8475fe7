-- ===== src/Route/Run/Invariant.antt =====
-- route/route.go: the invariant of `Run`.
use container_web_tty.Base.{
  ℕ, ◌+◌, ◌≤◌, ◌<◌, ◌≡◌, refl, sym, ◌∙◌, subst, ◌≢◌, ◌⊎◌, inl, inr, true, false, Option, none, some,
  arith,
}
use container_web_tty.Base.Int.{ℤ}
use container_web_tty.Route.Counter.{Counter, new_counter, add, done, may_return}
use container_web_tty.Route.Run.{
  ServeError, server_closed, failed, RunError, context_canceled, serve_error, Phase, serving,
  waiting, returned, fatal, Running, start, Outside, accepts, listen_fails, stops_gracefully,
  cancels, Inside, Handlers, request_ends, connects, disconnects, is_alive, shuts, shutdown_fails,
  takes_closed, takes_failure, takes_cancel, returns, Reach, here, outside, handled, inside,
}

-- What the phase says of the rest of the state.
abbrev pub Explains : Phase → Running → Type 0
Explains serving s = s.listening ≡ false → s.served ≢ none
Explains (waiting none) s = (s.listening ≡ false) × (s.graceful ≡ true)
Explains (waiting (some context_canceled)) s = (s.listening ≡ false) × (s.cancelled ≡ true)
Explains (waiting (some (serve_error e))) s = s.listening ≡ false
Explains (returned none) s = (s.listening ≡ false) × (s.graceful ≡ true)
Explains (returned (some context_canceled)) s = (s.listening ≡ false) × (s.cancelled ≡ true)
Explains (returned (some (serve_error e))) s = s.listening ≡ false
Explains fatal s = (s.graceful ≡ true) × (0 < s.requests)

pub record Inv (s : Running) : Type 0 where
  pub explained : Explains s.phase s
  pub closed_gracefully : s.served ≡ some server_closed → s.graceful ≡ true
  pub unserved : s.served ≢ none → s.listening ≡ false
  pub counted : s.counter.wg ≡ s.counter.connections

-- A step that leaves the phase, and takes nothing back.
record Grows (s t : Running) : Type 0 where
  serves : t.listening ≡ false → (s.listening ≡ false × (t.served ≡ s.served)) ⊎ (t.served ≢ none)
  listens : s.listening ≡ false → t.listening ≡ false
  stops : s.graceful ≡ true → t.graceful ≡ true
  ends : s.cancelled ≡ true → t.cancelled ≡ true

Explains-Grows :
    (p : Phase) (s t : Running) → is_alive p ≡ true → Grows s t → Explains p s → Explains p t
Explains-Grows serving s t r g h =
    λ l. elim (g.serves l) [ inl (before, same) ↦ rw same (h before) | inr there ↦ there ]
Explains-Grows (waiting none) s t r g h = (g.listens h.0, g.stops h.1)
Explains-Grows (waiting (some context_canceled)) s t r g h = (g.listens h.0, g.ends h.1)
Explains-Grows (waiting (some (serve_error e))) s t r g h = g.listens h
Explains-Grows (returned none) s t r g h = (g.listens h.0, g.stops h.1)
Explains-Grows (returned (some context_canceled)) s t r g h = (g.listens h.0, g.ends h.1)
Explains-Grows (returned (some (serve_error e))) s t r g h = g.listens h
Explains-Grows fatal s t r g h = cc

-- A step that changes none of the fields that the phase speaks of.
same-Grows :
    (s t : Running)
    → t.listening ≡ s.listening
    → t.served ≡ s.served
    → (s.graceful ≡ true → t.graceful ≡ true)
    → (s.cancelled ≡ true → t.cancelled ≡ true)
    → Grows s t
same-Grows s t l v g c = record {
  serves = λ h. inl (sym l ∙ h, v);
  listens = λ h. l ∙ h;
  stops = g;
  ends = c;
}

-- A step that ends `ListenAndServe`.
served-Grows :
    (s : Running) (e : ServeError) → Grows s (record s { listening = false; served = some e })
served-Grows s e = record {
  serves = λ h. inr (λ gone. cc);
  listens = λ h. refl;
  stops = λ h. h;
  ends = λ h. h;
}

Outside-Inv : {s t : Running} → Outside s t → Inv s → Inv t
Outside-Inv {s} (accepts r l) v = record {
  explained = Explains-Grows s.phase s _ r (same-Grows s _ refl refl (λ h. h) (λ h. h)) v.explained;
  closed_gracefully = v.closed_gracefully;
  unserved = v.unserved;
  counted = v.counted;
}
Outside-Inv {s} (listen_fails e r l) v = record {
  explained = Explains-Grows s.phase s _ r (served-Grows s (failed e)) v.explained;
  closed_gracefully = λ h. cc;
  unserved = λ h. refl;
  counted = v.counted;
}
Outside-Inv {s} (stops_gracefully r) v = record {
  explained =
      Explains-Grows s.phase s _ r (same-Grows s _ refl refl (λ h. refl) (λ h. h)) v.explained;
  closed_gracefully = λ h. refl;
  unserved = v.unserved;
  counted = v.counted;
}
Outside-Inv {s} (cancels r) v = record {
  explained =
      Explains-Grows s.phase s _ r (same-Grows s _ refl refl (λ h. refl) (λ h. refl)) v.explained;
  closed_gracefully = λ h. refl;
  unserved = v.unserved;
  counted = v.counted;
}

add-counted : (c : Counter) → c.wg ≡ c.connections → (add 1 c).0.wg ≡ (add 1 c).0.connections
unfolding add
add-counted c e = omega arith

pub add-connections : (c : Counter) → (add 1 c).0.connections ≡ c.connections + 1
unfolding add
add-connections c = refl

pub done-fewer : (c c' : Counter) (n : ℕ) → done c ≡ some (c', n) → c'.connections ≤ c.connections
unfolding done
done-fewer c c' n h = ground arith

done-counted :
    (c c' : Counter) (n : ℕ) → done c ≡ some (c', n) → c.wg ≡ c.connections → c'.wg ≡ c'.connections
unfolding done
done-counted c c' n e h = ground arith

pub nobody_left : (c : Counter) → c.wg ≡ c.connections → may_return c ≡ true → c.connections ≡ 0
unfolding may_return
nobody_left c h m = ground arith

returns-Explains :
    (e : Option RunError) (s : Running)
    → Explains (waiting e) s
    → Explains (returned e) (record s { phase = returned e })
returns-Explains none s h = h
returns-Explains (some context_canceled) s h = h
returns-Explains (some (serve_error e)) s h = h

Handlers-Inv : {s t : Running} → Handlers s t → Inv s → Inv t
Handlers-Inv {s} (request_ends k r l) v = record {
  explained = Explains-Grows s.phase s _ r (same-Grows s _ refl refl (λ h. h) (λ h. h)) v.explained;
  closed_gracefully = v.closed_gracefully;
  unserved = v.unserved;
  counted = v.counted;
}
Handlers-Inv {s} (connects k r l) v = record {
  explained = Explains-Grows s.phase s _ r (same-Grows s _ refl refl (λ h. h) (λ h. h)) v.explained;
  closed_gracefully = v.closed_gracefully;
  unserved = v.unserved;
  counted = add-counted s.counter v.counted;
}
Handlers-Inv {s} (disconnects c n r e) v = record {
  explained = Explains-Grows s.phase s _ r (same-Grows s _ refl refl (λ h. h) (λ h. h)) v.explained;
  closed_gracefully = v.closed_gracefully;
  unserved = v.unserved;
  counted = done-counted s.counter c n e v.counted;
}

Inside-Inv : {s t : Running} → Inside s t → Inv s → Inv t
Inside-Inv {s} (shuts r g l) v = record {
  explained = Explains-Grows s.phase s _ r (served-Grows s server_closed) v.explained;
  closed_gracefully = λ h. g;
  unserved = λ h. refl;
  counted = v.counted;
}
Inside-Inv {s} (shutdown_fails r g l) v = record {
  explained = (g, l);
  closed_gracefully = v.closed_gracefully;
  unserved = v.unserved;
  counted = v.counted;
}
Inside-Inv {s} (takes_closed p e) v = record {
  explained = (v.unserved (λ h. cc), v.closed_gracefully e);
  closed_gracefully = λ h. cc;
  unserved = λ h. absurd (h refl);
  counted = v.counted;
}
Inside-Inv {s} (takes_failure x p e) v = record {
  explained = v.unserved (λ h. cc);
  closed_gracefully = λ h. cc;
  unserved = λ h. absurd (h refl);
  counted = v.counted;
}
Inside-Inv {s} (takes_cancel p c) v = record {
  explained = (refl, c);
  closed_gracefully = v.closed_gracefully;
  unserved = λ h. refl;
  counted = v.counted;
}
Inside-Inv {s} (returns e p m) v = record {
  explained = returns-Explains e s (subst (λ (q : Phase). Explains q s) p v.explained);
  closed_gracefully = v.closed_gracefully;
  unserved = v.unserved;
  counted = v.counted;
}

pub Reach-Inv : {s t : Running} → Inv s → Reach s t → Inv t
Reach-Inv v here = v
Reach-Inv v (outside r o) = Outside-Inv o (Reach-Inv v r)
Reach-Inv v (handled r h) = Handlers-Inv h (Reach-Inv v r)
Reach-Inv v (inside r i) = Inside-Inv i (Reach-Inv v r)

pub start-Inv : (d : ℤ) → Inv (start d)
unfolding new_counter
start-Inv d = record {
  explained = λ h. cc;
  closed_gracefully = λ h. cc;
  unserved = λ h. absurd (h refl);
  counted = refl;
}

-- In the `select`, with nothing listening any more, there is an error to take.
pub serving-served :
    (s : Running) → Inv s → s.phase ≡ serving → s.listening ≡ false → s.served ≢ none
serving-served s v p = subst (λ (q : Phase). Explains q s) p v.explained
