-- ===== src/Docker/Options.antt =====
-- container/docker/docker.go: `buildListOptions`, which reads the options of `docker ps`.
mod Flags
mod Tests
use container_web_tty.Base.{
  ltb, if◌then◌else◌, length, Bytes, str, bytes_eq, split, ℕ, ◌+◌, Bool, true, false, ◌||◌, none,
  some, List, [], ◌∷◌, ◌++◌,
}
use container_web_tty.Base.Int.{ℤ, pos, atoi}

-- `container.ListOptions`; the filters in the order of their `Add` calls.
pub record ListOptions : Type 0 where
  pub all : Bool
  pub latest : Bool
  pub limit : ℤ
  pub filters : List (Bytes × Bytes)

abbrev pub no_options : ListOptions
no_options = record { all = false; latest = false; limit = pos 0; filters = [] }

-- The result: options, an error, or a panic at `args[i+1]`.
pub data Built : Type 0 where
  built : ListOptions → Built
  bad_filter : Bytes → Built
  bad_number : Bytes → Built
  panics : Built

infixl 5 ◌>>=◌
abbrev pub ◌>>=◌ : Built → (ListOptions → Built) → Built
built o >>= f = f o
bad_filter t >>= f = bad_filter t
bad_number t >>= f = bad_number t
panics >>= f = panics

-- `strings.Split(f, "=")` with exactly two parts.
unfoldable pub add_filter : Bytes → ListOptions → Built
add_filter f o = elim (split b'=' f) [
  | k ∷ v ∷ [] ↦ built (record o { filters = o.filters ++ (k, v) ∷ [] })
  | _ ↦ bad_filter f
]

unfoldable pub set_limit : Bytes → ListOptions → Built
set_limit f o = elim (atoi f) [ some n ↦ built (record o { limit = n }) | none ↦ bad_number f ]

-- `args[i+1]`, read only if `i+1 < len(arg)`: the code compares with the length of the argument.
unfoldable pub with_value :
    ℕ → Bytes → List Bytes → (Bytes → ListOptions → Built) → ListOptions → Built
with_value i arg [] use_value o = if ltb (i + 1) (length arg) then panics else built o
with_value i arg (f ∷ more) use_value o =
    if ltb (i + 1) (length arg) then use_value f o else built o

-- The `switch` for the argument at index `i`, before the arguments `more`.
unfoldable pub read_arg : ℕ → Bytes → List Bytes → ListOptions → Built
unfolding with_value
read_arg i arg more o =
    if bytes_eq arg (str "-a") || bytes_eq arg (str "--all")
    then built (record o { all = true })
    else if bytes_eq arg (str "-f") || bytes_eq arg (str "--filter")
    then with_value i arg more add_filter o
    else if bytes_eq arg (str "-n") || bytes_eq arg (str "--last")
    then with_value i arg more set_limit o
    else if bytes_eq arg (str "-l") || bytes_eq arg (str "--latest")
    then built (record o { latest = true })
    else built o

unfoldable pub read_args : ℕ → List Bytes → ListOptions → Built
read_args i [] o = built o
read_args i (arg ∷ more) o = read_arg i arg more o >>= read_args (i + 1) more

unfoldable pub build_list_options : Bytes → Built
unfolding read_args
build_list_options options = read_args 0 (split b' ' options) no_options
