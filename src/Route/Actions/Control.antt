-- ===== src/Route/Actions/Control.antt =====
-- route/route.go and route/handler.go: which actions the configuration lets through, and what they do.
use container_web_tty.Base.{
  ltb, if◌then◌else◌, lt→ltb, length, Bytes, bytes_eq, ◌<◌, ◌≡◌, refl, ◌∙◌, Bool, true, ◌&&◌, ◌||◌,
  Option, none, some, [], arith,
}
use container_web_tty.Config.{ControlConfig}
use container_web_tty.Backend.{Cli}
use container_web_tty.Route.Actions.{
  Answer, panics, json, success, perform, handle_container_actions, Action, start, stop, restart,
  action_name, control_routes, is_routed, post_action,
}

-- What the configuration says of an action.
abbrev pub allows : ControlConfig → Action → Bool
allows ctl start = ctl.enable && (ctl.start || ctl.all)
allows ctl stop = ctl.enable && (ctl.stop || ctl.all)
allows ctl restart = ctl.enable && (ctl.restart || ctl.all)

-- The backend's method for an action.
abbrev pub method : (cli : Cli) → Action → Bytes → cli.State → cli.State × Option Bytes
method cli start = cli.start
method cli stop = cli.stop
method cli restart = cli.restart

is_routed-allows :
    (ctl : ControlConfig) (a : Action) → is_routed a (control_routes ctl) ≡ allows ctl a
unfolding is_routed control_routes bytes_eq
is_routed-allows ctl start = ground arith
is_routed-allows ctl stop = ground arith
is_routed-allows ctl restart = ground arith

perform-method :
    (cli : Cli) (a : Action) (cid : Bytes) (st : cli.State)
    → perform cli (action_name a) cid st ≡ method cli a cid st
unfolding perform bytes_eq
perform-method cli start cid st = refl
perform-method cli stop cid st = refl
perform-method cli restart cid st = refl

-- The answer to the backend's error, or to its success.
abbrev pub answer_of : Action → Bytes → Option Bytes → Answer
answer_of a cid (some e) = json 500 (record { code = 500; error = e; message = [] })
answer_of a cid none = success (action_name a) cid

handle-method :
    (cli : Cli) (a : Action) (cid : Bytes) (st : cli.State)
    → handle_container_actions cli (action_name a) cid st
      ≡ ((method cli a cid st).0, answer_of a cid (method cli a cid st).1)
unfolding handle_container_actions
handle-method cli a cid st = rw (perform-method cli a cid st) (ground arith)

-- An action runs exactly if the configuration allows it: then the backend's method of that action is
-- called once and its error decides the answer; if not, there is no route and the backend is unchanged.
pub post_action_lem :
    (cli : Cli) (ctl : ControlConfig) (a : Action) (cid : Bytes) (st : cli.State)
    → post_action cli ctl a cid st ≡ (
        if allows ctl a
        then ((method cli a cid st).0, some (answer_of a cid (method cli a cid st).1))
        else (st, none))
unfolding post_action
post_action_lem cli ctl a cid st = rw (is_routed-allows ctl a, handle-method cli a cid st)

-- On an ID of fewer than seven bytes an allowed action that succeeds has its effect and then panics.
pub short_id_panics :
    (cli : Cli) (ctl : ControlConfig) (a : Action) (cid : Bytes) (st : cli.State)
    → allows ctl a ≡ true
    → (method cli a cid st).1 ≡ none
    → length cid < 7
    → post_action cli ctl a cid st ≡ ((method cli a cid st).0, some panics)
short_id_panics cli ctl a cid st allowed ok short =
    let cut : ltb (length cid) 7 ≡ true = lt→ltb (length cid) 7 short in
    post_action_lem cli ctl a cid st ∙ rw (allowed, ok, cut)
