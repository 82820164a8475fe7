-- ===== src/Kube/Tty/Tests.antt =====
-- Tests of container/kube/tty.go.
use container_web_tty.Base.{◌≡◌, refl, true, [], ◌∷◌, ◌++◌}
use container_web_tty.Kube.Tty.{
  Terminal, new_injector, pipe, set_pipe, put, pull, writes, takes, prints, reads, Reach, here,
  next,
}
use container_web_tty.Kube.Tty.Flow.{tty_flows}

-- The stream has read one byte of the input and printed two, and one of these was read.
abbrev in_use : Terminal
in_use = record {
  first_pipe = record { waiting = 36 ∷ []; is_open = true };
  second_pipe = record { waiting = 115 ∷ []; is_open = true };
  typed = 108 ∷ 115 ∷ [];
  received = 108 ∷ [];
  printed = 35 ∷ 36 ∷ [];
  shown = 35 ∷ [];
}

in_use-Reach : Reach new_injector in_use
unfolding new_injector pipe set_pipe put pull
in_use-Reach =
    next
      (next (next (next here (writes (108 ∷ 115 ∷ []) refl refl)) (prints (35 ∷ 36 ∷ []) refl refl))
        (takes 1 refl))
      (reads 1 refl)

tty_flows_example :
    (in_use.typed ≡ in_use.received ++ in_use.second_pipe.waiting)
    × (in_use.printed ≡ in_use.shown ++ in_use.first_pipe.waiting)
tty_flows_example = tty_flows in_use in_use-Reach
