-- ===== src/Kube/Sizes/Tests.antt =====
-- Tests of container/kube/tty.go's sizes.
use container_web_tty.Base.{ℕ, ◌<◌, ◌≡◌, refl, ◌↔◌, true, false, List, [], ◌∷◌, ◌++◌}
use container_web_tty.Base.Int.{ℤ, pos, negsuc}
use container_web_tty.Kube.Sizes.{
  TerminalSize, terminal_size, Queue, new_queue, resizes, takes, closes, Reach, here, next,
}
use container_web_tty.Kube.Sizes.Order.{thrice, sizes_thrice, terminal_size_lem}

abbrev normal : ℤ × ℤ
normal = (pos 80, pos 24)

-- The terminal is closed after the first of three rounds.
abbrev cut : Queue
cut = record {
  asked = normal ∷ [];
  left = 2;
  size = normal;
  taken = record { width = 80; height = 24 } ∷ [];
  closed = true;
  finished = false;
  crashed = false;
}

cut-Reach : Reach new_queue cut
unfolding terminal_size
cut-Reach = next (next (next here (resizes normal refl)) (takes 2 refl refl)) (closes refl)

sizes_thrice_example :
    ((rest : List TerminalSize) × (cut.taken ++ rest ≡ thrice cut.asked))
    × (cut.closed ≡ false → cut.left ≡ 0 → cut.taken ≡ thrice cut.asked)
    × (cut.finished ≡ true → cut.closed ≡ true)
sizes_thrice_example = sizes_thrice cut cut-Reach

terminal_size_lem_test :
    let s = terminal_size (pos 65616, negsuc 0) in
    (s.width < 65536)
    × (s.height < 65536)
    × ((pos s.width ≡ pos 65616) ↔ ((n : ℕ) × (pos 65616 ≡ pos n) × (n < 65536)))
    × ((pos s.height ≡ negsuc 0) ↔ ((n : ℕ) × (negsuc 0 ≡ pos n) × (n < 65536)))
terminal_size_lem_test = terminal_size_lem (pos 65616) (negsuc 0)

-- A width that does not fit is cut.
wraps : terminal_size (pos 65616, negsuc 0) ≡ record { width = 80; height = 65535 }
unfolding terminal_size
wraps = refl
