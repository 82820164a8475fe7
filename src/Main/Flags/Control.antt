-- ===== src/Main/Flags/Control.antt =====
-- main.go with route/route.go: from the flags of the container actions to their routes.
use container_web_tty.Base.{
  if◌then◌else◌, Bytes, ◌≡◌, refl, ap, ◌∙◌, inl, Bool, ◌||◌, Option, List, [], ◌∷◌, ◌++◌, map,
  arith,
}
use container_web_tty.Base.Int.{ℤ}
use container_web_tty.Config.{Config, ControlConfig}
use container_web_tty.Route.Actions.{Action, start, stop, restart, control_routes}
use container_web_tty.Route.Pages.{Handler, routes}
use container_web_tty.Route.Pages.Routing.{posts, posts-routes}
use container_web_tty.Main.{action, enable_control}
use container_web_tty.Main.Flags.{
  Kind, switch, Value, Flag, app_flags, value_of, configure, store, store_value, all_flag,
  start_flag, stop_flag, restart_flag,
}

-- The actions that are wanted, in the order of their routes.
abbrev pub wanted : Bool → Bool → Bool → List Action
wanted a b c =
    (if a then start ∷ [] else [])
    ++ ((if b then stop ∷ [] else []) ++ (if c then restart ∷ [] else []))

enabled-routes :
    (ctl : ControlConfig)
    → control_routes (enable_control ctl)
      ≡ wanted (ctl.start || ctl.all) (ctl.stop || ctl.all) (ctl.restart || ctl.all)
unfolding control_routes enable_control
enabled-routes ctl = ground arith

action-control :
    (parse_duration : Bytes → Option ℤ) (idle_time grpc_servers : Bytes) (conf conf' : Config)
    → action parse_duration idle_time grpc_servers conf ≡ inl conf'
    → (conf'.server).control ≡ enable_control (conf.server).control
unfolding action
action-control parse_duration idle_time grpc_servers conf conf' e = ground arith

module _ (given : (k : Kind) → Flag k → Option (Value k)) where
  -- Whether a flag is set, on the command line, in the environment or by its default.
  abbrev pub is_set : Flag switch → Bool
  is_set f = value_of given switch f

  configured-control :
      (getenv : Bytes → Bytes) (conf : Config)
      → let ctl = ((configure given (app_flags getenv) conf).server).control in
        wanted (ctl.start || ctl.all) (ctl.stop || ctl.all) (ctl.restart || ctl.all)
        ≡ wanted
            (is_set start_flag || is_set all_flag)
            (is_set stop_flag || is_set all_flag)
            (is_set restart_flag || is_set all_flag)
  unfolding app_flags configure store_value store
  configured-control getenv conf = refl

  -- With the configuration that the flags make, the requests other than GET that have a route are
  -- those for the actions whose own flag or whose flag for all is set, whatever else is given.
  pub flags_routes :
      (getenv : Bytes → Bytes) (conf conf' : Config) (parse_duration : Bytes → Option ℤ)
      (idle_time grpc_servers : Bytes) (assets : List Bytes)
      → action parse_duration idle_time grpc_servers (configure given (app_flags getenv) conf)
        ≡ inl conf'
      → posts (routes assets (conf'.server).control)
        ≡ map
            (λ a. Handler.control a)
            (wanted
              (is_set start_flag || is_set all_flag)
              (is_set stop_flag || is_set all_flag)
              (is_set restart_flag || is_set all_flag))
  flags_routes getenv conf conf' parse_duration idle_time grpc_servers assets e =
      let c = configure given (app_flags getenv) conf in
      posts-routes assets (conf'.server).control
      ∙ ap (map (λ a. Handler.control a)) (
          ap control_routes (action-control parse_duration idle_time grpc_servers c conf' e)
          ∙ (enabled-routes (c.server).control ∙ configured-control getenv conf))
