-- ===== src/Grpc/Client/Merged.antt =====
-- container/grpc/grpc.go: the list that `List` merges from the servers.
use container_web_tty.Base.{
  Bool-cases, Option-cases, Bytes, bytes_eq, bytes_eq_iff, Dict, lookup, insert, lookup-insert, ◌≡◌,
  refl, sym, ◌∙◌, ◌⊎◌, inl, inr, Bool, true, false, ◌||◌, List, [], ◌∷◌, ◌++◌, arith,
}
use container_web_tty.Types.{Container}
use container_web_tty.Types.Containers
use container_web_tty.Proxy.Messages.{PbContainer}
use container_web_tty.Proxy.Convert.{convert_pb_container}
use container_web_tty.Grpc.Client.{
  Remote, GrpcCli, Collected, is_marked, collect, collect_client, collect_all, list,
}

abbrev pub has_id : Bytes → List Container → Bool
has_id id [] = false
has_id id (c ∷ cs) = bytes_eq c.id id || has_id id cs

-- No ID stands twice.
abbrev pub Unique : List Container → Type 0
Unique [] = Unit {0}
Unique (c ∷ cs) = (has_id c.id cs ≡ false) × Unique cs

abbrev pub AllServed : (Bytes → Type 0) → List Container → Type 0
AllServed P [] = Unit {0}
AllServed P (c ∷ cs) = P c.loc_server × AllServed P cs

pub has_id-append :
    (id : Bytes) (cs ds : List Container) → has_id id (cs ++ ds) ≡ (has_id id cs || has_id id ds)
has_id-append id [] ds = refl
has_id-append id (c ∷ cs) ds = ground (arith, has_id-append id cs ds)

Unique-append :
    (cs : List Container) (c : Container)
    → Unique cs
    → has_id c.id cs ≡ false
    → Unique (cs ++ c ∷ [])
Unique-append [] c u h = (refl, tt)
Unique-append (d ∷ cs) c u h = ground (
  arith,
  Unique-append cs c u.1,
  has_id-append d.id cs (c ∷ []),
  bytes_eq_iff c.id d.id,
  bytes_eq_iff d.id c.id,
)

AllServed-append :
    (P : Bytes → Type 0) (cs : List Container) (c : Container)
    → AllServed P cs
    → P c.loc_server
    → AllServed P (cs ++ c ∷ [])
AllServed-append P [] c a h = (h, tt)
AllServed-append P (d ∷ cs) c a h = (a.0, AllServed-append P cs c a.1 h)

-- The marks are the IDs that were collected, each once.
record Inv (P : Bytes → Type 0) (acc : Collected) : Type 0 where
  marks : (id : Bytes) → is_marked id acc.ids ≡ has_id id acc.all
  unique : Unique acc.all
  served : AllServed P acc.all

collect_one-Inv :
    (P : Bytes → Type 0) (addr : Bytes) (c : PbContainer) (acc : Collected)
    → P addr
    → Inv P acc
    → is_marked c.id acc.ids ≡ false
    → let x = convert_pb_container (record c { loc_server = addr }) in
      Inv P (record { all = acc.all ++ x ∷ []; ids = insert c.id true acc.ids })
unfolding convert_pb_container
collect_one-Inv P addr c acc p v new =
    let x = convert_pb_container (record c { loc_server = addr }) in
    record {
      marks = λ id. ground (
        arith,
        v.marks id,
        lookup-insert id c.id true acc.ids,
        has_id-append id acc.all (x ∷ []),
      );
      unique = Unique-append acc.all x v.unique (sym (v.marks c.id) ∙ new);
      served = AllServed-append P acc.all x v.served p;
    }

collect-Inv :
    (P : Bytes → Type 0) (addr : Bytes) (cs : List PbContainer) (acc : Collected)
    → P addr
    → Inv P acc
    → Inv P (collect addr cs acc)
unfolding collect
collect-Inv P addr [] acc p v = v
collect-Inv P addr (c ∷ cs) acc p v = elim (Bool-cases (is_marked c.id acc.ids)) [
  | inl old ↦ rw old (collect-Inv P addr cs acc p v)
  | inr new ↦ rw new (collect-Inv P addr cs _ p (collect_one-Inv P addr c acc p v new))
]

-- The address is that of a client that answers to a ping.
abbrev pub Answering : Bytes → Dict Remote → Bytes → Type 0
Answering auth [] addr = ⊥
Answering auth ((a, r) ∷ rest) addr = ((addr ≡ a) × (r.ping auth ≡ true)) ⊎ Answering auth rest addr

abbrev AllIn : (Bytes → Type 0) → Bytes → Dict Remote → Type 0
AllIn P auth [] = Unit {0}
AllIn P auth ((a, r) ∷ rest) = (r.ping auth ≡ true → P a) × AllIn P auth rest

AllIn-mono :
    (P Q : Bytes → Type 0) (auth : Bytes) (cs : Dict Remote)
    → ((a : Bytes) → P a → Q a)
    → AllIn P auth cs
    → AllIn Q auth cs
AllIn-mono P Q auth [] f h = tt
AllIn-mono P Q auth ((a, r) ∷ cs) f h = (λ p. f a (h.0 p), AllIn-mono P Q auth cs f h.1)

all-Answering : (auth : Bytes) (cs : Dict Remote) → AllIn (Answering auth cs) auth cs
all-Answering auth [] = tt
all-Answering auth ((a, r) ∷ cs) = (
  λ p. inl (refl, p),
  AllIn-mono (Answering auth cs) (Answering auth ((a, r) ∷ cs)) auth cs (λ b h. inr h)
      (all-Answering auth cs),
)

collect_client-Inv :
    (P : Bytes → Type 0) (auth addr : Bytes) (r : Remote) (acc : Collected)
    → (r.ping auth ≡ true → P addr)
    → Inv P acc
    → Inv P (collect_client auth addr r acc)
unfolding collect_client
collect_client-Inv P auth addr r acc p v = elim (Bool-cases (r.ping auth)) [
  | inr dead ↦ rw dead v
  | inl alive ↦ elim (Option-cases (r.list auth)) [
    | inl e ↦ rw (alive, e) v
    | inr (cs, e) ↦ rw (alive, e) (collect-Inv P addr cs acc (p alive) v)
  ]
]

collect_all-Inv :
    (P : Bytes → Type 0) (auth : Bytes) (cs : Dict Remote) (acc : Collected)
    → AllIn P auth cs
    → Inv P acc
    → Inv P (collect_all auth cs acc)
unfolding collect_all
collect_all-Inv P auth [] acc h v = v
collect_all-Inv P auth ((a, r) ∷ cs) acc h v =
    collect_all-Inv P auth cs (collect_client auth a r acc) h.1
      (collect_client-Inv P auth a r acc h.0 v)

nothing-Inv : (P : Bytes → Type 0) → Inv P (record { all = []; ids = [] })
unfolding lookup
nothing-Inv P = record { marks = λ id. refl; unique = tt; served = tt }

-- `List` returns no ID twice, whatever the servers answer, each container with the address of a
-- server that answers, and leaves the same containers in the cache.
pub list_merged :
    (g : GrpcCli)
    → let (g', cs) = list g in
      Unique cs × AllServed (Answering g.auth g.clients) cs × (Containers.list g'.containers ≡ cs)
unfolding list Containers.list Containers.set Containers.init
list_merged g =
    let P = Answering g.auth g.clients in
    let v =
      collect_all-Inv P g.auth g.clients (record { all = []; ids = [] })
        (all-Answering g.auth g.clients) (nothing-Inv P) in
    (v.unique, v.served, ground arith)
