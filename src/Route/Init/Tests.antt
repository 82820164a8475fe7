-- ===== src/Route/Init/Tests.antt =====
-- Tests of `readInitMessage` and `makeTitleBuff` in route/handler.go.
use container_web_tty.Base.{Bytes, str, ◌≡◌, ◌↔◌, Option, some}
use container_web_tty.Types.{InitMessage}
use container_web_tty.Samples.{web}
use container_web_tty.Route.Init.{text_message, arguments, read_init_message}
use container_web_tty.Route.Init.Credential.{Presents, read_init_message_iff}
use container_web_tty.Route.Title.{make_title_buff, make_title_buff_lem}

-- A decoder that takes the whole message for the token.
abbrev decode : Bytes → Option InitMessage
decode line = some (record { arguments = str "?cmd=top"; auth_token = line })

read_init_message_iff_example :
    (read_init_message decode (str "secret") (text_message (str "secret"))
      ≡ arguments (str "?cmd=top"))
    ↔ Presents decode (str "secret") (text_message (str "secret")) (str "?cmd=top")
read_init_message_iff_example =
    read_init_message_iff decode (str "secret") (text_message (str "secret")) (str "?cmd=top")

titles_web : make_title_buff web (some (str "[SLAVE]")) ≡ some (str "[SLAVE] web@localhost")
titles_web = make_title_buff_lem web (some (str "[SLAVE]"))
