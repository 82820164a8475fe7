-- ===== src/Route/Init/Credential.antt =====
-- route/handler.go: which first messages are let in.
use container_web_tty.Base.{
  Option-cases, Bytes, bytes_eq_iff, ◌≡◌, refl, ◌↔◌, ◌⊎◌, inl, inr, Option, some, [], arith,
}
use container_web_tty.Types.{InitMessage}
use container_web_tty.Route.Init.{
  denied, Outcome, Message, read_error, text_message, other_message, arguments, read_init_message,
}

-- The message is a text that decodes to these arguments, with the server's credential if it has one.
abbrev pub Presents : (Bytes → Option InitMessage) → Bytes → Message → Bytes → Type 0
Presents unmarshal credential m args =
    (line : Bytes) × (token : Bytes) × (m ≡ text_message line)
    × (unmarshal line ≡ some (record { arguments = args; auth_token = token }))
    × ((credential ≡ []) ⊎ (token ≡ credential))

presented :
    (unmarshal : Bytes → Option InitMessage) (credential : Bytes) (m : Message) (args : Bytes)
    → read_init_message unmarshal credential m ≡ arguments args
    → Presents unmarshal credential m args
unfolding read_init_message
presented unmarshal credential read_error args e = cc
presented unmarshal credential (other_message line) args e = cc
presented unmarshal credential (text_message line) args e = elim (Option-cases (unmarshal line)) [
  | inl failed ↦ ground arith
  | inr (init, found) ↦ (
    line,
    init.auth_token,
    refl,
    ground arith,
    ground (arith, bytes_eq_iff init.auth_token credential),
  )
]

let_in :
    (unmarshal : Bytes → Option InitMessage) (credential : Bytes) (m : Message) (args : Bytes)
    → Presents unmarshal credential m args
    → read_init_message unmarshal credential m ≡ arguments args
unfolding read_init_message
let_in unmarshal credential m args (line, token, e, decoded, h) =
    rw (e, decoded, read_init_message) (ground (arith, bytes_eq_iff token credential))

-- The arguments of a connection are taken exactly from a text message that decodes to them and, where
-- the server has a credential, carries it.
pub read_init_message_iff :
    (unmarshal : Bytes → Option InitMessage) (credential : Bytes) (m : Message) (args : Bytes)
    → (read_init_message unmarshal credential m ≡ arguments args)
      ↔ Presents unmarshal credential m args
read_init_message_iff unmarshal credential m args =
    (presented unmarshal credential m args, let_in unmarshal credential m args)

-- The two results of a first message.
pub Outcome-cases :
    (o : Outcome) → ((e : Bytes) × (o ≡ denied e)) ⊎ ((args : Bytes) × (o ≡ arguments args))
Outcome-cases (denied e) = inl (e, refl)
Outcome-cases (arguments args) = inr (args, refl)
