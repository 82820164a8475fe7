-- ===== src/Docker/Options/Flags.antt =====
-- container/docker/docker.go: what `buildListOptions` makes of the flags.
use container_web_tty.Base.{
  ltb, if◌then◌else◌, Bool-cases, length, Bytes, str, bytes_eq, bytes_eq_iff, split, ℕ, ◌+◌, ◌<◌,
  ◌≡◌, refl, ap, ◌∙◌, ◌⊎◌, inl, inr, Bool, true, false, ◌||◌, List, [], ◌∷◌, arith,
}
use container_web_tty.Docker.Options.{
  ◌>>=◌, with_value, pos, no_options, read_args, read_arg, build_list_options, Built, ListOptions,
  built, add_filter, set_limit,
}

abbrev pub is_all : Bytes → Bool
is_all arg = bytes_eq arg (str "-a") || bytes_eq arg (str "--all")

abbrev pub any : (Bytes → Bool) → List Bytes → Bool
any p [] = false
any p (a ∷ as') = p a || any p as'

add_filter-all : (f : Bytes) (o q : ListOptions) → add_filter f o ≡ built q → (q.all ≡ o.all)
unfolding add_filter
add_filter-all f o q e = ground arith

set_limit-all : (f : Bytes) (o q : ListOptions) → set_limit f o ≡ built q → (q.all ≡ o.all)
unfolding set_limit
set_limit-all f o q e = ground arith

read_arg-all :
    (i : ℕ) (arg : Bytes) (more : List Bytes) (o q : ListOptions)
    → read_arg i arg more o ≡ built q
    → q.all ≡ (o.all || is_all arg)
unfolding read_arg
read_arg-all i arg [] o q e = ground arith
read_arg-all i arg (f ∷ more) o q e = ground (arith, add_filter-all f o q, set_limit-all f o q)

>>=-built :
    (m : Built) (f : ListOptions → Built) (q : ListOptions)
    → (m >>= f) ≡ built q
    → (o : ListOptions) × (m ≡ built o) × (f o ≡ built q)
>>=-built (built o) f q e = (o, refl, e)
>>=-built _ f q e = cc

read_args-all :
    (i : ℕ) (args : List Bytes) (o q : ListOptions)
    → read_args i args o ≡ built q
    → q.all ≡ (o.all || any is_all args)
unfolding read_args
read_args-all i [] o q e = ground arith
read_args-all i (arg ∷ more) o q e =
    let (p, e₁, e₂) = >>=-built (read_arg i arg more o) (read_args (i + 1) more) q e in
    ground (arith, read_arg-all i arg more o p e₁, read_args-all (i + 1) more p q e₂)

-- Where the options are read without an error, all containers are listed exactly when `-a` or
-- `--all` is among them.
pub build_list_options-all :
    (options : Bytes) (q : ListOptions)
    → build_list_options options ≡ built q
    → q.all ≡ any is_all (split b' ' options)
unfolding build_list_options
build_list_options-all options q e = read_args-all 0 (split b' ' options) no_options q e

-- An argument that is none of the flags that take a value by their long names.
abbrev pub is_long : Bytes → Bool
is_long arg = bytes_eq arg (str "--filter") || bytes_eq arg (str "--last")

abbrev pub is_short : Bytes → Bool
is_short arg = bytes_eq arg (str "-f") || bytes_eq arg (str "-n")

abbrev Plain : ListOptions → ListOptions → Type 0
Plain o q = (q.filters ≡ o.filters) × (q.limit ≡ o.limit)

short_length : (arg : Bytes) → is_short arg ≡ true → length arg ≡ 2
short_length arg h = elim (Bool-cases (bytes_eq arg (str "-f"))) [
  | inl e ↦ ap length ((bytes_eq_iff arg (str "-f")).0 e)
  | inr e ↦ ap length ((bytes_eq_iff arg (str "-n")).0 (ground arith))
]

with_value_ignores :
    (i : ℕ) (arg : Bytes) (more : List Bytes) (use_value : Bytes → ListOptions → Built)
    (o : ListOptions)
    → 0 < i
    → length arg ≡ 2
    → with_value i arg more use_value o ≡ built o
unfolding with_value
with_value_ignores i arg [] use_value o h l =
    let past : ltb (i + 1) (length arg) ≡ false = ground arith in rw past
with_value_ignores i arg (f ∷ more) use_value o h l =
    let past : ltb (i + 1) (length arg) ≡ false = ground arith in rw past

-- The effect of an argument that is not a flag with a value.
abbrev flagged : Bytes → ListOptions → ListOptions
flagged arg o =
    if is_all arg
    then record o { all = true }
    else if is_short arg
    then o
    else if bytes_eq arg (str "-l") || bytes_eq arg (str "--latest")
    then record o { latest = true }
    else o

-- A short flag is ignored at any index but the first.
read_arg_ignores :
    (i : ℕ) (arg : Bytes) (more : List Bytes) (o : ListOptions)
    → is_long arg ≡ false
    → (0 < i) ⊎ (is_short arg ≡ false)
    → read_arg i arg more o ≡ built (flagged arg o)
unfolding read_arg
read_arg_ignores i arg more o h (inl later) = ground (
  arith,
  short_length arg,
  with_value_ignores i arg more add_filter o later,
  with_value_ignores i arg more set_limit o later,
)
read_arg_ignores i arg more o h (inr other) = ground arith

flagged-Plain : (arg : Bytes) (o : ListOptions) → Plain o (flagged arg o)
flagged-Plain arg o = ground arith

abbrev pub NoneLong : List Bytes → Type 0
NoneLong [] = Unit {0}
NoneLong (a ∷ args) = (is_long a ≡ false) × NoneLong args

read_args_ignores :
    (i : ℕ) (args : List Bytes) (o : ListOptions)
    → 0 < i
    → NoneLong args
    → (q : ListOptions) × (read_args i args o ≡ built q) × Plain o q
unfolding read_args
read_args_ignores i [] o h n = (o, refl, (refl, refl))
read_args_ignores i (arg ∷ more) o h n =
    let (q, e, kept) = read_args_ignores (i + 1) more (flagged arg o) (omega arith) n.1 in
    let plain = flagged-Plain arg o in
    (q, rw (read_arg_ignores i arg more o n.0 (inl h)) e, (kept.0 ∙ plain.0, kept.1 ∙ plain.1))

-- Without the long names `--filter` and `--last`, and with neither `-f` nor `-n` in the first place,
-- the options are read without an error, with no filter and no limit: `-f` and `-n` anywhere
-- else, with or without a value, are ignored.
pub short_flags_ignored :
    (options arg : Bytes) (more : List Bytes)
    → split b' ' options ≡ arg ∷ more
    → NoneLong (arg ∷ more)
    → is_short arg ≡ false
    → (q : ListOptions) × (build_list_options options ≡ built q)
      × (q.filters ≡ [])
      × (q.limit ≡ pos 0)
unfolding build_list_options read_args
short_flags_ignored options arg more e n short =
    let (q, e', kept) = read_args_ignores (0 + 1) more (flagged arg no_options) (omega arith) n.1 in
    let plain = flagged-Plain arg no_options in
    (
      q,
      rw (e, read_arg_ignores 0 arg more no_options n.0 (inr short)) e',
      (kept.0 ∙ plain.0),
      (kept.1 ∙ plain.1),
    )
