-- ===== src/Kube/Tty/Flow.antt =====
-- container/kube/tty.go: what goes in and what comes out of the terminal.
use container_web_tty.Base.{
  take, drop, take-append-drop, Bytes, ℕ, ◌≡◌, refl, sym, ap, ◌∙◌, [], ◌++◌,
}
use mathlib.Core.List.{append-nil, append_assoc}
use container_web_tty.Kube.Tty.{
  Terminal, Pipe, first, second, new_injector, pipe, set_pipe, put, pull, close, writes, takes,
  prints, reads, closes, Reach, here, next,
}

-- What went into a pipe is what came out of it and what still waits.
abbrev Flows : Bytes → Bytes → Pipe → Type 0
Flows sent got q = sent ≡ got ++ q.waiting

put-Flows :
    {sent : Bytes} (got : Bytes) (q : Pipe) (p : Bytes)
    → q.waiting ≡ []
    → Flows sent got q
    → sent ++ p ≡ got ++ p
put-Flows got q p h f = ap (λ s. s ++ p) (f ∙ ap (λ x. got ++ x) h ∙ append-nil got)

pull-Flows :
    {sent : Bytes} (got : Bytes) (q : Pipe) (n : ℕ)
    → Flows sent got q
    → sent ≡ (got ++ take n q.waiting) ++ drop n q.waiting
pull-Flows got q n f =
    f
    ∙ ap (λ x. got ++ x) (sym (take-append-drop n q.waiting))
    ∙ sym (append_assoc got (take n q.waiting) (drop n q.waiting))

-- At every time what `Write` took is what the stream has received and then the rest of the last
-- write, and what the stream printed is what `Read` returned and then the rest of the stream's
-- last write.
pub tty_flows :
    (t : Terminal)
    → Reach new_injector t
    → (t.typed ≡ t.received ++ t.second_pipe.waiting)
      × (t.printed ≡ t.shown ++ t.first_pipe.waiting)
unfolding new_injector pipe set_pipe put pull close
tty_flows _ here = (refl, refl)
tty_flows _ (next {t} h (writes p _ e)) =
    let (a, b) = tty_flows t h in (put-Flows t.received t.second_pipe p e a, b)
tty_flows _ (next {t} h (takes n _)) =
    let (a, b) = tty_flows t h in (pull-Flows t.received t.second_pipe n a, b)
tty_flows _ (next {t} h (prints p _ e)) =
    let (a, b) = tty_flows t h in (a, put-Flows t.shown t.first_pipe p e b)
tty_flows _ (next {t} h (reads n _)) =
    let (a, b) = tty_flows t h in (a, pull-Flows t.shown t.first_pipe n b)
tty_flows _ (next h (closes first)) = tty_flows _ h
tty_flows _ (next h (closes second)) = tty_flows _ h
