-- ===== src/Route/Title.antt =====
-- route/handler.go: the variables of a window title, and the title. The two templates of package
-- template are run on fixed variables: the title's is `{{ .containerName }}@{{ .containerLoc }}`.
use container_web_tty.Base.{
  if◌then◌else◌, is_empty, Bytes, str, bytes_eq, Dict, lookup, insert, ◌≡◌, refl, Option, none,
  some, List, [], ◌∷◌, ◌++◌,
}
use container_web_tty.Types.{Container}

-- A template variable: a text, or a map of texts.
pub data Value : Type 0 where
  text : Bytes → Value
  vars : Dict Bytes → Value

-- One unit's variables, put into the map one by one.
unfoldable pub merge_unit : Dict Bytes → Dict Value → Dict Value
merge_unit [] m = m
merge_unit ((k, v) ∷ unit) m = merge_unit unit (insert k (text v) m)

-- The first loop of `titleVariables`; `none` is its panic.
unfoldable pub merge_units : List Bytes → Dict (Dict Bytes) → Dict Value → Option (Dict Value)
merge_units [] units m = some m
merge_units (name ∷ order) units m = elim (lookup name units) [
  | none ↦ none
  | some unit ↦ merge_units order units (merge_unit unit m)
]

-- The second loop: the units themselves, under their names. A missing unit would be a nil map.
unfoldable pub add_names : List Bytes → Dict (Dict Bytes) → Dict Value → Dict Value
add_names [] units m = m
add_names (name ∷ order) units m =
    add_names order units
      (insert name (vars (elim (lookup name units) [ some unit ↦ unit | none ↦ [] ])) m)

unfoldable pub title_variables : List Bytes → Dict (Dict Bytes) → Option (Dict Value)
title_variables order units = elim (merge_units order units []) [
  | none ↦ none
  | some m ↦ some (add_names order units m)
]

-- A text variable in a template; another value or none would print otherwise, and does not occur.
abbrev pub text_of : Bytes → Dict Value → Bytes
text_of k m = elim (lookup k m) [ some (text t) ↦ t | _ ↦ [] ]

-- `makeTitleBuff`, with the optional `extra`; `none` is a panic of `titleVariables`.
unfoldable pub make_title_buff : Container → Option Bytes → Option Bytes
make_title_buff c extra =
    let location = if is_empty c.loc_server then str "localhost" else c.loc_server in
    let name : Bytes = elim extra [ some e ↦ e ++ (str " " ++ c.name) | none ↦ c.name ] in
    elim (title_variables (str "server" ∷ []) (
      (
        str "server",
        (str "containerLoc", location)
            ∷ (str "containerName", name)
            ∷ (str "containerID", c.id)
            ∷ [],
      )
      ∷ [])) [
        | none ↦ none
        | some m ↦
            some (text_of (str "containerName") m ++ (str "@" ++ text_of (str "containerLoc") m))
      ]

-- The title of a terminal: the extra text and the name, and the place of the container.
pub make_title_buff_lem :
    (c : Container) (extra : Option Bytes)
    → make_title_buff c extra
      ≡ some (
          (elim extra [ some e ↦ e ++ (str " " ++ c.name) | none ↦ c.name ])
          ++ (str "@" ++ (if is_empty c.loc_server then str "localhost" else c.loc_server)))
unfolding make_title_buff title_variables merge_units merge_unit add_names insert lookup bytes_eq
make_title_buff_lem c extra = refl
