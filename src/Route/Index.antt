-- ===== src/Route/Index.antt =====
-- route/ws.go: `handleWSIndex`, up to the page's template. `get_info` is the backend's method.
mod Tests
use container_web_tty.Base.{
  if◌then◌else◌, is_empty, Bytes, str, bytes_eq, Dict, lookup, insert, ◌≡◌, refl, Option, none,
  some, [], ◌∷◌, ◌++◌,
}
use container_web_tty.Types.{Container}
use container_web_tty.Route.Title.{
  Value, text, vars, title_variables, merge_units, merge_unit, add_names,
}
use container_web_tty.Route.Server.{Server, get_container_id, handle_ws_index}
use container_web_tty.Route.Pages.{trim_suffix}

-- What a template prints of a variable: package template prints a missing key like this. A map of
-- texts would be printed otherwise, and does not occur.
unfoldable pub printed : Bytes → Dict Value → Bytes
printed k m = elim (lookup k m) [ some (text t) ↦ t | some (vars d) ↦ [] | none ↦ str "<no value>" ]

-- `indexVars`
pub record IndexVars : Type 0 where
  pub title : Bytes
  pub base : Bytes

-- The title's template on the variables of the page; `none` is a panic of `titleVariables`.
unfoldable pub index_title : Container → Option Bytes
unfolding title_variables printed
index_title c =
    elim (title_variables (str "server" ∷ [])
      ((str "server", (str "containerName", c.name) ∷ []) ∷ [])) [
        | none ↦ none
        | some m ↦
            some (printed (str "containerName") m ++ (str "@" ++ printed (str "containerLoc") m))
      ]

-- The answer: 400 for an exec ID that is not there, the variables of the page, or a panic.
pub data Index : Type 0 where
  bad_request : Index
  page : IndexVars → Index
  panics : Index

unfoldable pub index_of : (Bytes → Container) → Server → Option Bytes → Index
unfolding index_title trim_suffix
index_of get_info s none = bad_request
index_of get_info s (some id) = elim (index_title (get_info id)) [
  | none ↦ panics
  | some title ↦ page (record { title = title; base = trim_suffix (str "/") (s.options).base })
]

unfoldable pub index_page : (Bytes → Container) → Bytes → Bytes → Server → Index
unfolding handle_ws_index index_of
index_page get_info cid exec_id s = index_of get_info s (handle_ws_index cid exec_id s)

-- The page for a container, by its name before a place that no variable gives.
abbrev pub expected : (Bytes → Container) → Server → Option Bytes → Index
expected get_info s none = bad_request
expected get_info s (some id) = page (record {
  title = (get_info id).name ++ str "@<no value>";
  base = trim_suffix (str "/") (s.options).base;
})

index_of-expected :
    (get_info : Bytes → Container) (s : Server) (o : Option Bytes)
    → index_of get_info s o ≡ expected get_info s o
unfolding index_of index_title title_variables merge_units merge_unit add_names insert lookup
    bytes_eq printed
index_of-expected get_info s none = refl
index_of-expected get_info s (some id) = refl

-- The page of an exec or of logs never panics, and is refused exactly for an exec ID that the server
-- does not have; its title is the container's name before a place that no variable gives.
pub index_page_lem :
    (get_info : Bytes → Container) (cid exec_id : Bytes) (s : Server)
    → index_page get_info cid exec_id s
      ≡ expected get_info s (if is_empty cid then lookup exec_id s.execs else some cid)
unfolding index_page handle_ws_index get_container_id
index_page_lem get_info cid exec_id s = index_of-expected get_info s _
