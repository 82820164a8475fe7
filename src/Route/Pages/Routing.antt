-- ===== src/Route/Pages/Routing.antt =====
-- route/route.go: which requests the registered routes let through.
use container_web_tty.Base.{
  if◌then◌else◌, Bool-cases, drop-append_length, Bytes, str, bytes_eq, trim_prefix,
  has_prefix-append, ◌≡◌, refl, ap, ◌∙◌, inl, inr, List, [], ◌∷◌, ◌++◌, map, arith,
}
use container_web_tty.Base.FilePath.{join_path}
use container_web_tty.Config.{ControlConfig}
use container_web_tty.Route.Actions.{control_routes}
use container_web_tty.Route.Pages.{
  Method, get, post, Handler, control, Route, asset_routes, container_routes, routes, rewrite_uri,
}

abbrev pub push : Method → Handler → List Handler → List Handler
push get h hs = hs
push post h hs = h ∷ hs

-- The handlers of the requests that change something.
unfoldable pub posts : List Route → List Handler
posts [] = []
posts (r ∷ rs) = push r.method r.handler (posts rs)

push-append :
    (m : Method) (h : Handler) (xs ys : List Handler) → push m h (xs ++ ys) ≡ push m h xs ++ ys
push-append get h xs ys = refl
push-append post h xs ys = refl

posts-append : (rs qs : List Route) → posts (rs ++ qs) ≡ posts rs ++ posts qs
unfolding posts
posts-append [] qs = refl
posts-append (r ∷ rs) qs =
    ap (push r.method r.handler) (posts-append rs qs)
    ∙ push-append r.method r.handler (posts rs) (posts qs)

posts-asset_routes : (names : List Bytes) → posts (asset_routes names) ≡ []
unfolding posts asset_routes
posts-asset_routes [] = refl
posts-asset_routes (name ∷ names) = elim (Bool-cases (bytes_eq name (str "/"))) [
  | inl root ↦ rw root (posts-asset_routes names)
  | inr other ↦ rw other (posts-asset_routes names)
]

posts-container_routes :
    (ctl : ControlConfig) → posts (container_routes ctl) ≡ map control (control_routes ctl)
unfolding posts container_routes control_routes
posts-container_routes ctl = ground arith

-- Whatever the assets are, the only requests other than GET that have a route are the container
-- actions that the configuration allows.
pub posts-routes :
    (assets : List Bytes) (ctl : ControlConfig)
    → posts (routes assets ctl) ≡ map control (control_routes ctl)
unfolding posts routes
posts-routes assets ctl =
    posts-append (asset_routes assets) _
    ∙ rw (posts-asset_routes assets) (posts-container_routes ctl)

-- A path of the group at the base path.
abbrev pub group_path : Bytes → Bytes → Bytes
group_path base name =
    let joined = join_path base [] in if bytes_eq joined (str "/") then name else joined ++ name

trim_prefix-append : (p s : Bytes) → trim_prefix p (p ++ s) ≡ s
unfolding trim_prefix
trim_prefix-append p s = rw (has_prefix-append p s) (drop-append_length p s)

-- Under any base path, a request for an asset reaches the asset handler with the asset's own name.
pub rewrite_uri_lem : (base name : Bytes) → rewrite_uri base (group_path base name) ≡ name
unfolding rewrite_uri
rewrite_uri_lem base name = elim (Bool-cases (bytes_eq (join_path base []) (str "/"))) [
  | inl root ↦ rw root refl
  | inr other ↦ rw other (trim_prefix-append (join_path base []) name)
]
