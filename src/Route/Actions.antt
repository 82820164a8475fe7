-- ===== src/Route/Actions.antt =====
-- route/handler.go: `handleContainerActions`, over any backend, and the routes that `Run` registers
-- for it in route/route.go.
pub mod Control
mod Tests
use container_web_tty.Base.{
  ltb, if◌then◌else◌, length, take, Bytes, str, bytes_eq, ℕ, Bool, false, ◌||◌, Option, none, some,
  List, [], ◌∷◌, ◌++◌,
}
use container_web_tty.Types.{ContainerActionMessage}
use container_web_tty.Config.{ControlConfig}
use container_web_tty.Backend.{Cli}

-- A JSON answer with its status, or a panic.
pub data Answer : Type 0 where
  json : ℕ → ContainerActionMessage → Answer
  panics : Answer

-- The message of a success holds `cid[:7]`, which panics on a shorter ID.
abbrev pub success : Bytes → Bytes → Answer
success action cid =
    if ltb (length cid) 7
    then panics
    else json 0 (record {
      code = 0;
      error = [];
      message = action ++ (str " container " ++ (take 7 cid ++ str " successfully"));
    })

module _ (cli : Cli) where
  -- The `switch` over the action; another name does nothing.
  unfoldable pub perform : Bytes → Bytes → cli.State → cli.State × Option Bytes
  perform action cid st =
      if bytes_eq action (str "start")
      then cli.start cid st
      else if bytes_eq action (str "stop")
      then cli.stop cid st
      else if bytes_eq action (str "restart")
      then cli.restart cid st
      else (st, none)

  unfoldable pub handle_container_actions : Bytes → Bytes → cli.State → cli.State × Answer
  handle_container_actions action cid st =
      let (st', err) = perform action cid st in
      (
        st',
        elim err [
          | some e ↦ json 500 (record { code = 500; error = e; message = [] })
          | none ↦ success action cid
        ],
      )

-- The three handlers.
pub data Action : Type 0 where
  start stop restart : Action

abbrev pub action_name : Action → Bytes
action_name start = str "start"
action_name stop = str "stop"
action_name restart = str "restart"

-- The routes of the group `/container` that `Run` registers, in its order.
unfoldable pub control_routes : ControlConfig → List Action
control_routes ctl =
    if ctl.enable
    then (if ctl.start || ctl.all then start ∷ [] else [])
      ++ ((if ctl.stop || ctl.all then stop ∷ [] else [])
          ++ (if ctl.restart || ctl.all then restart ∷ [] else []))
    else []

-- A `POST` to `/container/<action>/<cid>`: `none` is the router's answer for an unknown route.
unfoldable pub is_routed : Action → List Action → Bool
is_routed a [] = false
is_routed a (b ∷ bs) = bytes_eq (action_name a) (action_name b) || is_routed a bs

module _ (cli : Cli) where
  unfoldable pub post_action :
      ControlConfig → Action → Bytes → cli.State → cli.State × Option Answer
  unfolding control_routes is_routed
  post_action ctl a cid st =
      if is_routed a (control_routes ctl)
      then (let (st', answer) = handle_container_actions cli (action_name a) cid st in
          (st', some answer))
      else (st, none)
