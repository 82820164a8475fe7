-- ===== src/Route/Pages/Tests.antt =====
-- Tests of the routes and pages of route/route.go and route/handler.go.
use container_web_tty.Base.{
  length, get_elem?, Bytes, str, bytes_eq, has_prefix, trim_prefix, split, join, ◌≡◌, refl, true,
  false, Option, some, List, [], ◌∷◌, map,
}
use container_web_tty.Base.FilePath.{join_path, clean, clean_all, clean_step}
use container_web_tty.Types.{InitMessage}
use container_web_tty.Samples.{options, control}
use container_web_tty.Route.Actions.{control_routes}
use container_web_tty.Route.Init.{text_message, arguments, read_init_message}
use container_web_tty.Route.Pages.{
  Handler, routes, rewrite_uri, debug_paths, trim_suffix, handle_auth_token,
}
use container_web_tty.Route.Pages.Routing.{posts, posts-routes, group_path, rewrite_uri_lem}
use container_web_tty.Route.Pages.Token.{shown_token, auth_token_opens}

abbrev assets : List Bytes
assets = str "/" ∷ str "/css/index.css" ∷ str "/js/gotty-bundle.js" ∷ []

posts-routes_test :
    posts (routes assets control) ≡ map (λ a. Handler.control a) (control_routes control)
posts-routes_test = posts-routes assets control

route_count : length (routes assets (record control { enable = false })) ≡ 10
unfolding routes bytes_eq container_web_tty.Route.Pages.asset_routes
    container_web_tty.Route.Pages.container_routes
route_count = refl

rewrite_uri_lem_test :
    rewrite_uri (str "/tty/") (group_path (str "/tty/") (str "/css/index.css"))
    ≡ str "/css/index.css"
rewrite_uri_lem_test = rewrite_uri_lem (str "/tty/") (str "/css/index.css")

-- The index of the profiler loses its last slash, and with it the pages below.
profiler_index : get_elem? (debug_paths true (str "/")) 0 ≡ some (str "/debug/pprof")
unfolding debug_paths join_path clean clean_all clean_step split join has_prefix bytes_eq
profiler_index = refl

list_base : trim_suffix (str "/") (str "/tty/") ≡ str "/tty"
unfolding trim_suffix trim_prefix has_prefix
list_base = refl

-- The token is read from the page and sent.
abbrev decode : Bytes → Option InitMessage
decode line = some (record { arguments = []; auth_token = line })

auth_token_opens_test :
    read_init_message decode options.credential
      (text_message (shown_token (handle_auth_token options)))
    ≡ arguments []
auth_token_opens_test =
    auth_token_opens decode options (shown_token (handle_auth_token options)) [] refl
