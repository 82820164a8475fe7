-- ===== src/Base/FilePath.antt =====
-- path/filepath's `Clean` and `Join` on slash-separated paths, by their documentation.
use mathlib.Core.List.{reverse, List, [], ◌∷◌, ◌++◌}
use mathlib.Core.Bool.{Bool, ◌||◌, ◌&&◌}
use container_web_tty.Base.Text.{Bytes, str, bytes_eq, has_prefix, split, join}
use container_web_tty.Base.Tests.{if◌then◌else◌}
use container_web_tty.Base.Lists.{is_empty}

-- One element of a path, on the stack of those before it.
unfoldable pub clean_step : Bool → Bytes → List Bytes → List Bytes
clean_step rooted elem stack =
    if is_empty elem || bytes_eq elem (str ".")
    then stack
    else if bytes_eq elem (str "..")
    then elim stack [
      | [] ↦ if rooted then [] else elem ∷ []
      | top ∷ rest ↦ if bytes_eq top (str "..") then elem ∷ top ∷ rest else rest
    ]
    else elem ∷ stack

unfoldable pub clean_all : Bool → List Bytes → List Bytes → List Bytes
unfolding clean_step
clean_all rooted [] stack = reverse stack
clean_all rooted (elem ∷ elems) stack = clean_all rooted elems (clean_step rooted elem stack)

unfoldable pub clean : Bytes → Bytes
unfolding clean_all has_prefix split join
clean path =
    let rooted = has_prefix (str "/") path in
    let body = join (str "/") (clean_all rooted (split b'/' path) []) in
    if rooted then str "/" ++ body else if is_empty body then str "." else body

-- `Join` of two elements; an empty one is left out.
unfoldable pub join_path : Bytes → Bytes → Bytes
unfolding clean
join_path a b =
    if is_empty a && is_empty b
    then []
    else if is_empty a
    then clean b
    else if is_empty b
    then clean a
    else clean (a ++ (str "/" ++ b))
