-- ===== src/Route/Index/Tests.antt =====
-- Tests of route/ws.go.
use container_web_tty.Base.{
  if◌then◌else◌, is_empty, str, bytes_eq, lookup, ℕ, ◌≡◌, refl, some, [], ◌∷◌,
}
use container_web_tty.Samples.{options, web}
use container_web_tty.Route.Server.{Server, new}
use container_web_tty.Route.Index.{bad_request, index_page, expected, index_page_lem}

abbrev server : Server
server = record (new options) { execs = (str "exec1", web.id) ∷ [] }

index_page_test :
    index_page (λ cid. web) [] (str "exec1") server
    ≡ expected
        (λ cid. web)
        server
        (if is_empty {A = ℕ} [] then lookup (str "exec1") server.execs else some [])
index_page_test = index_page_lem (λ cid. web) [] (str "exec1") server

unknown_exec : index_page (λ cid. web) [] (str "exec2") server ≡ bad_request
unfolding index_page container_web_tty.Route.Index.index_of
    container_web_tty.Route.Server.handle_ws_index container_web_tty.Route.Server.get_container_id
    lookup bytes_eq new
unknown_exec = refl
