-- ===== src/Route/Actions/Tests.antt =====
-- Tests of the container actions in route/handler.go.
use container_web_tty.Base.{str, ◌≡◌, refl, none, some, arith}
use container_web_tty.Samples.{backend, control, web}
use container_web_tty.Route.Actions.{panics, success, start, stop, post_action}
use container_web_tty.Route.Actions.Control.{post_action_lem, short_id_panics}

post_action_lem_test :
    post_action backend control start web.id 5 ≡ (6, some (success (str "start") web.id))
post_action_lem_test = post_action_lem backend control start web.id 5

post_action_stop : post_action backend control stop web.id 5 ≡ (5, none)
post_action_stop = post_action_lem backend control stop web.id 5

panics_after_start : post_action backend control start (str "web") 5 ≡ (6, some panics)
panics_after_start = short_id_panics backend control start (str "web") 5 refl refl (omega arith)
