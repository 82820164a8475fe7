-- ===== src/Proxy/Streams/Tests.antt =====
-- Tests of the loops in proxy/server.go.
use container_web_tty.Base.{str, ◌≡◌, refl, inl, true, none, some, List, [], ◌∷◌, ◌++◌}
use container_web_tty.Base.Int.{pos}
use container_web_tty.Proxy.Messages.{ExecMessage}
use container_web_tty.Proxy.Streams.{TtyCall, resizes, writes, fine, Received, receive}
use container_web_tty.Proxy.Streams.Relay.{Brings, receive-append, receive_empty_message}

abbrev nothing : ExecMessage
nothing = record { cmd = none; c = none; auth = []; ws = none }

abbrev brought : ExecMessage → Received
brought m = record { message = inl (some m); write_fault = fine }

abbrev rounds : List Received
rounds =
    brought (record nothing { ws = some (record { height = pos 24; width = pos 80 }) })
    ∷ brought (record nothing { cmd = some (record { input = str "ls"; output = [] }) })
    ∷ []

abbrev calls : List TtyCall
calls = resizes (pos 80) (pos 24) ∷ writes (str "ls") ∷ []

brings : Brings rounds calls
brings = (
  resizes (pos 80) (pos 24) ∷ [],
  writes (str "ls") ∷ [],
  refl,
  (λ e. cc),
  (writes (str "ls") ∷ [], [], refl, (λ e. cc), refl, refl),
  refl,
)

receive-append_test :
    receive (rounds ++ rounds)
    ≡ record { calls = calls ++ (receive rounds).calls; panicked = (receive rounds).panicked }
receive-append_test = receive-append rounds rounds calls brings

receive_empty_message_test :
    receive (rounds ++ brought nothing ∷ rounds) ≡ record { calls = calls; panicked = true }
receive_empty_message_test =
    receive_empty_message rounds rounds calls (brought nothing) nothing brings refl refl refl
