-- ===== src/Route/Wrappers/Tests.antt =====
-- Tests of route/ws_wrapper.go.
use container_web_tty.Base.{
  length, take, length-take, Bytes, str, ◌≤◌, ◌<◌, min, ◌≡◌, refl, List, [], ◌∷◌, map, arith,
}
use container_web_tty.Route.Wrappers.{Message, text_message, other_message, read_all}
use container_web_tty.Route.Wrappers.Inputs.{texts, total, read_all-texts, read_all-loses}

abbrev messages : List Message
messages = other_message (str "ping") ∷ text_message (str "1ls -la") ∷ text_message (str "1q") ∷ []

read_all-texts_test : read_all take 3 4 messages ≡ map (take 4) (texts messages)
read_all-texts_test = read_all-texts take 4 3 messages (omega arith)

cut_input : map (take 4) (texts messages) ≡ str "1ls " ∷ str "1q" ∷ []
unfolding texts
cut_input = refl

take_short : (c : Bytes) → length (take 4 c) ≤ min 4 (length c)
take_short c = omega (arith, length-take 4 c)

read_all-loses_test :
    total (read_all take 2 4 (text_message (str "1ls -la") ∷ text_message (str "1q") ∷ []))
    < total (texts (text_message (str "1ls -la") ∷ text_message (str "1q") ∷ []))
read_all-loses_test =
    read_all-loses take 4 (text_message (str "1q") ∷ []) (str "1ls -la") take_short (omega arith)
