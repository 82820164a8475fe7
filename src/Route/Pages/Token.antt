-- ===== src/Route/Pages/Token.antt =====
-- route/handler.go: what the credential guards, when its page is served to everyone.
use container_web_tty.Base.{
  length, take, drop, length-append, take-append_length, Bytes, str, ◌-◌, ◌≡◌, refl, inr, Option,
  some, arith,
}
use container_web_tty.Config.{ServerConfig}
use container_web_tty.Types.{InitMessage}
use container_web_tty.Route.Init.{text_message, arguments, read_init_message}
use container_web_tty.Route.Init.Credential.{read_init_message_iff}
use container_web_tty.Route.Pages.{Page, handle_auth_token}

-- The text between the first and the last quote of the page. A browser takes it as the token where it
-- holds no quote, backslash or line break.
abbrev pub shown_token : Page → Bytes
shown_token p = take (length p.body - 26) (drop 24 p.body)

shown : (options : ServerConfig) → shown_token (handle_auth_token options) ≡ options.credential
unfolding handle_auth_token
shown options =
    let l = length-append options.credential (str "';") in
    let k : length (handle_auth_token options).body - 26 ≡ length options.credential =
      omega (arith, l) in
    rw k (take-append_length options.credential (str "';"))

-- Whoever reads the page `/auth_token.js`, which asks for nothing, can send a first message that the
-- server takes, with any arguments, whatever the credential is.
pub auth_token_opens :
    (unmarshal : Bytes → Option InitMessage) (options : ServerConfig) (line args : Bytes)
    → unmarshal line
      ≡ some (record { arguments = args; auth_token = shown_token (handle_auth_token options) })
    → read_init_message unmarshal options.credential (text_message line) ≡ arguments args
auth_token_opens unmarshal options line args e =
    (read_init_message_iff unmarshal options.credential (text_message line) args).1
      (line, shown_token (handle_auth_token options), refl, e, inr (shown options))
