-- ===== src/Docker/Options/Tests.antt =====
-- Tests of `buildListOptions` in container/docker/docker.go.
use container_web_tty.Base.{str, bytes_eq, split, ◌≡◌, refl, true, [], ◌∷◌}
use container_web_tty.Base.Int.{pos}
use container_web_tty.Docker.Options.{
  read_arg, read_args, ListOptions, no_options, built, build_list_options,
}
use container_web_tty.Docker.Options.Flags.{
  is_all, any, build_list_options-all, short_flags_ignored,
}

all_of : any is_all (split b' ' (str "-l -a")) ≡ true
unfolding split bytes_eq
all_of = refl

built_all :
    build_list_options (str "-l -a") ≡ built (record no_options { all = true; latest = true })
unfolding build_list_options read_args read_arg split bytes_eq
built_all = refl

build_list_options-all_test : true ≡ any is_all (split b' ' (str "-l -a"))
build_list_options-all_test =
    build_list_options-all (str "-l -a") (record no_options { all = true; latest = true }) built_all

short_flags_ignored_test :
    (q : ListOptions) × (build_list_options (str "-a -n 5") ≡ built q)
    × (q.filters ≡ [])
    × (q.limit ≡ pos 0)
unfolding split bytes_eq
short_flags_ignored_test =
    short_flags_ignored (str "-a -n 5") (str "-a") (str "-n" ∷ str "5" ∷ []) refl
      (refl, (refl, (refl, tt))) refl
