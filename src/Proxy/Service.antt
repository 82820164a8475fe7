-- ===== src/Proxy/Service.antt =====
-- proxy/server.go: the handlers of the gRPC service, over any backend.
use container_web_tty.Base.{
  if◌then◌else◌, Bytes, str, bytes_eq, ℕ, ◌⊎◌, inl, inr, Option, none, some, List, [], ◌∷◌, map,
}
use container_web_tty.Types.{Container}
use container_web_tty.Backend.{Cli, Opened, opened, refused}
use container_web_tty.Proxy.Messages.{Empty, ContainerId, LogOpts, PbContainer, ExecMessage}
use container_web_tty.Proxy.Convert.{convert_pb_container, convert_tp_container}

-- What a handler answers. The two streams go on with a terminal or a reader of the backend.
pub data Reply : Type 0 where
  panics : Reply
  fails : Bytes → Reply
  pong : Bytes → Reply
  one : PbContainer → Reply
  many : List PbContainer → Reply
  acted : Option Bytes → Reply
  serves : ℕ → Reply

-- An `interface{}`: nil itself, or a pointer, which may be nil.
pub data Interface (A : Type 0) : Type 0 where
  nil_interface : Interface A
  pointer : Option A → Interface A

-- `checkNil`: the error, if any. An interface that holds a nil pointer is not nil.
unfoldable pub check_nil : {A : Type 0} → Interface A → Option Bytes
check_nil nil_interface = some (str "nil pointer")
check_nil (pointer p) = none

abbrev pub auth_failed : Bytes
auth_failed = str "auth failed"

-- `checkAuth`
unfoldable pub check_auth : Bytes → Bytes → Option Bytes
check_auth expected auth = if bytes_eq auth expected then none else some auth_failed

-- `wrapContainer`
unfoldable pub wrap_container : List Container → List PbContainer
wrap_container cs = map convert_tp_container cs

module _ (cli : Cli) (expected : Bytes) where
  -- The two checks at the head of a handler: a nil pointer passes the first one, and panics where
  -- its field is read.
  unfoldable pub guarded :
      {A : Type 0}
      → Option A
      → (A → Bytes)
      → (A → cli.State × Reply)
      → cli.State
      → cli.State × Reply
  guarded p auth_of body st = elim (check_nil (pointer p)) [
    | some e ↦ (st, fails e)
    | none ↦ elim p [
      | none ↦ (st, panics)
      | some m ↦ elim (check_auth expected (auth_of m)) [ some e ↦ (st, fails e) | none ↦ body m ]
    ]
  ]

  unfoldable pub ping : Option Empty → cli.State → cli.State × Reply
  unfolding guarded
  ping e st = guarded e (λ m. m.auth) (λ m. (st, pong (str "pong"))) st

  -- The first of the containers that `wrapContainer` returns.
  abbrev reply_first : List PbContainer → Reply
  reply_first [] = panics
  reply_first (c ∷ cs) = one c

  unfoldable pub get_info : Option ContainerId → cli.State → cli.State × Reply
  unfolding guarded wrap_container
  get_info cid st =
      guarded cid (λ m. m.auth)
        (λ m. let (st', c) = cli.get_info m.id st in (st', reply_first (wrap_container (c ∷ []))))
        st

  unfoldable pub list : Option Empty → cli.State → cli.State × Reply
  unfolding guarded
  list e st =
      guarded e (λ m. m.auth) (λ m. let (st', cs) = cli.list st in (st', many (wrap_container cs)))
        st

  unfoldable pub start : Option ContainerId → cli.State → cli.State × Reply
  unfolding guarded
  start cid st =
      guarded cid (λ m. m.auth) (λ m. let (st', e) = cli.start m.id st in (st', acted e)) st

  unfoldable pub stop : Option ContainerId → cli.State → cli.State × Reply
  unfolding guarded
  stop cid st =
      guarded cid (λ m. m.auth) (λ m. let (st', e) = cli.stop m.id st in (st', acted e)) st

  unfoldable pub restart : Option ContainerId → cli.State → cli.State × Reply
  unfolding guarded
  restart cid st =
      guarded cid (λ m. m.auth) (λ m. let (st', e) = cli.restart m.id st in (st', acted e)) st

  abbrev reply_opened : cli.State × Opened → cli.State × Reply
  reply_opened (st, opened handle) = (st, serves handle)
  reply_opened (st, refused e) = (st, fails e)

  -- `Exec`, up to its loops: the first message, or the error of `Recv`.
  unfoldable pub exec : ExecMessage ⊎ Bytes → cli.State → cli.State × Reply
  exec (inr e) st = (st, fails e)
  exec (inl m) st = elim (check_auth expected m.auth) [
    | some e ↦ (st, fails e)
    | none ↦ elim m.c [
      | none ↦ (st, fails (str "nil container"))
      | some c ↦ reply_opened (cli.exec (convert_pb_container c) st)
    ]
  ]

  -- `Logs`, up to its loop. The options themselves are not nil.
  unfoldable pub logs : LogOpts → cli.State → cli.State × Reply
  unfolding guarded
  logs o st =
      guarded o.c (λ m. m.auth)
        (λ m. reply_opened (cli.logs (record { id = m.id; follow = o.follow; tail = o.tail }) st))
        st
