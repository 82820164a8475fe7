-- ===== src/Route/Init.antt =====
-- route/handler.go: the first message of a websocket, with the credential, and the query. The JSON
-- decoder and the URL parser are parameters.
pub mod Credential
mod Tests
use container_web_tty.Base.{
  if◌then◌else◌, is_empty, Bytes, str, bytes_eq, ◌⊎◌, inl, inr, not, ◌&&◌, Option, none, some, ◌++◌,
}
use container_web_tty.Types.{InitMessage}

-- What `conn.ReadMessage` returns.
pub data Message : Type 0 where
  read_error : Message
  text_message : Bytes → Message
  other_message : Bytes → Message

pub data Outcome : Type 0 where
  arguments : Bytes → Outcome
  denied : Bytes → Outcome

abbrev pub not_authenticated : Bytes
not_authenticated = str "failed to authenticate websocket connection"

abbrev pub bad_type : Bytes
bad_type = str "failed to authenticate websocket connection: invalid message type"

module _ (unmarshal : Bytes → Option InitMessage) where
  -- `readInitMessage`, with the credential of the server.
  unfoldable pub read_init_message : Bytes → Message → Outcome
  read_init_message credential read_error = denied not_authenticated
  read_init_message credential (other_message line) = denied bad_type
  read_init_message credential (text_message line) = elim (unmarshal line) [
    | none ↦ denied not_authenticated
    | some init ↦
        if not (is_empty credential) && not (bytes_eq init.auth_token credential)
        then denied not_authenticated
        else arguments init.arguments
  ]

-- The values of a query: the first one of a key, or the empty text.
abbrev pub Query : Type 0
Query = Bytes → Bytes

module _ (parse_url : Bytes → Option Query) where
  -- `parseQuery`: the query, or the error.
  unfoldable pub parse_query : Bytes → Query ⊎ Bytes
  parse_query args = elim (parse_url (if is_empty args then str "?" else args)) [
    | some q ↦ inl q
    | none ↦ inr (str "bad arguments: " ++ args)
  ]
