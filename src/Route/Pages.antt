-- ===== src/Route/Pages.antt =====
-- route/route.go: the routes that `Run` registers, and route/handler.go: the pages behind them. The
-- names of the assets and the list's template are parameters.
pub mod Routing
mod Token
mod Tests
use container_web_tty.Base.{
  if◌then◌else◌, Bytes, str, bytes_eq, trim_prefix, ℕ, Bool, ◌||◌, Option, List, [], ◌∷◌, ◌++◌,
}
use mathlib.Core.List.{reverse}
use container_web_tty.Base.FilePath.{join_path}
use container_web_tty.Config.{ServerConfig, ControlConfig}
use container_web_tty.Types.{Container}
use container_web_tty.Backend.{Cli}
use container_web_tty.Route.Actions.{Action, start, stop, restart}

pub record Page : Type 0 where
  pub status : ℕ
  pub content_type : Bytes
  pub body : Bytes

abbrev pub script : Bytes → Page
script text = record { status = 200; content_type = str "application/javascript"; body = text }

unfoldable pub handle_auth_token : ServerConfig → Page
handle_auth_token options =
    script (str "var gotty_auth_token = '" ++ (options.credential ++ str "';"))

unfoldable pub handle_config : ServerConfig → Page
handle_config options = script (str "var gotty_term = '" ++ (options.term ++ str "';"))

-- strings.TrimSuffix, its arguments swapped.
unfoldable pub trim_suffix : Bytes → Bytes → Bytes
unfolding trim_prefix
trim_suffix p s = reverse (trim_prefix (reverse p) (reverse s))

-- `listVars`
pub record ListVars : Type 0 where
  pub title : Bytes
  pub containers : List Container
  pub control : ControlConfig
  pub loc : Bool
  pub base : Bytes

module _ (cli : Cli) (execute : ListVars → Bytes × Option Bytes) where
  -- `handleListContainers`: what is written, also where the template fails, and its error.
  unfoldable pub handle_list_containers :
      ServerConfig → cli.State → cli.State × (Bytes × Option Bytes)
  unfolding trim_suffix
  handle_list_containers options st =
      let (st', containers) = cli.list st in
      (
        st',
        execute (record {
          title = str "List Containers";
          containers = containers;
          control = options.control;
          loc = options.show_location;
          base = trim_suffix (str "/") options.base;
        }),
      )

pub data Method : Type 0 where
  get post : Method

pub data Handler : Type 0 where
  list_containers auth_token config exec_redirect ws_index exec logs : Handler
  asset : Handler
  control : Action → Handler

-- A route of the group at the base path.
pub record Route : Type 0 where
  pub method : Method
  pub path : Bytes
  pub handler : Handler

abbrev pub at : Bytes → Handler → Route
at path handler = record { method = get; path = path; handler = handler }

-- The assets but `/`.
unfoldable pub asset_routes : List Bytes → List Route
unfolding bytes_eq
asset_routes [] = []
asset_routes (name ∷ names) =
    let rest = asset_routes names in if bytes_eq name (str "/") then rest else at name asset ∷ rest

abbrev pub act : Bytes → Action → Route
act path a = record { method = post; path = path; handler = control a }

-- The group `/container`.
unfoldable pub container_routes : ControlConfig → List Route
container_routes ctl =
    if ctl.enable
    then (if ctl.start || ctl.all then act (str "/container/start/:id") start ∷ [] else [])
      ++ ((if ctl.stop || ctl.all then act (str "/container/stop/:id") stop ∷ [] else [])
          ++ (if ctl.restart || ctl.all
              then act (str "/container/restart/:id") restart ∷ []
              else []))
    else []

unfoldable pub routes : List Bytes → ControlConfig → List Route
unfolding asset_routes container_routes
routes assets ctl =
    at (str "/") list_containers
    ∷ at (str "/auth_token.js") auth_token
    ∷ at (str "/config.js") config
    ∷ (asset_routes assets
        ++ (at (str "/e/:cid/") exec_redirect
            ∷ at (str "/exec/:eid/") ws_index
            ∷ at (str "/exec/:eid/ws") exec
            ∷ at (str "/logs/:cid/") ws_index
            ∷ at (str "/logs/:cid/ws") logs
            ∷ container_routes ctl))

-- `rewriteH`: the URI that the asset handler sees.
unfoldable pub rewrite_uri : Bytes → Bytes → Bytes
unfolding trim_prefix join_path
rewrite_uri base uri =
    let joined = join_path base [] in
    if bytes_eq joined (str "/") then uri else trim_prefix joined uri

-- The profiler's paths beside the group, at the debug level.
unfoldable pub debug_paths : Bool → Bytes → List Bytes
unfolding join_path
debug_paths debug base =
    let joined = join_path base [] in
    if debug
    then join_path joined (str "/debug/pprof/")
      ∷ join_path joined (str "/debug/pprof/cmdline")
      ∷ join_path joined (str "/debug/pprof/profile")
      ∷ join_path joined (str "/debug/pprof/symbol")
      ∷ join_path joined (str "/debug/pprof/trace")
      ∷ []
    else []
