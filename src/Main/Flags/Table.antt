-- ===== src/Main/Flags/Table.antt =====
-- main.go: what the flags make of the configuration.
use container_web_tty.Base.{Bytes, ◌≡◌, refl, Option, none, some, List, [], ◌∷◌}
use container_web_tty.Config.{Config}
use container_web_tty.Main.Flags.{
  Kind, Value, Destination, field, Flag, AnyFlag, app_flags, value_of, store_value, store,
  configure,
}

module _ (given : (k : Kind) → Flag k → Option (Value k)) where
  -- The field that the flag points to, if any, has the flag's value.
  abbrev pub At : {k : Kind} → Option (Destination k) → Value k → Config → Type 0
  At none v c = Unit
  At (some d) v c = field d c ≡ v

  abbrev pub AllStored : List AnyFlag → Config → Type 0
  AllStored [] c = Unit
  AllStored ((k, f) ∷ fs) c = At f.destination (value_of given k f) c × AllStored fs c

  -- What no flag points to.
  pub record Kept (c c' : Config) : Type 0 where
    pub idle_time : (c'.server).idle_time ≡ (c.server).idle_time
    pub credential : (c'.server).credential ≡ (c.server).credential
    pub enable_reconnect : (c'.server).enable_reconnect ≡ (c.server).enable_reconnect
    pub reconnect_time : (c'.server).reconnect_time ≡ (c.server).reconnect_time
    pub max_connection : (c'.server).max_connection ≡ (c.server).max_connection
    pub ws_origin : (c'.server).ws_origin ≡ (c.server).ws_origin
    pub term : (c'.server).term ≡ (c.server).term
    pub show_location : (c'.server).show_location ≡ (c.server).show_location
    pub enable : ((c'.server).control).enable ≡ ((c.server).control).enable
    pub servers : ((c'.backend).grpc).servers ≡ ((c.backend).grpc).servers

  -- No flag overwrites another's: after all flags have been stored, every field that a flag points to
  -- has the value that was given for this flag, or its default, and the fields without a flag, with
  -- the credential and the limit of connections among them, are as they were.
  pub configure_lem :
      (getenv : Bytes → Bytes) (c : Config)
      → let c' = configure given (app_flags getenv) c in AllStored (app_flags getenv) c' × Kept c c'
  unfolding app_flags configure store_value store
  configure_lem getenv c = (
    (
      refl,
      (
        refl,
        (
          refl,
          (
            refl,
            (
              refl,
              (
                refl,
                (
                  refl,
                  (
                    refl,
                    (
                      refl,
                      (
                        tt,
                        (
                          refl,
                          (
                            refl,
                            (tt, (refl, (refl, (refl, (refl, (refl, (refl, (refl, (tt, tt))))))))),
                          ),
                        ),
                      ),
                    ),
                  ),
                ),
              ),
            ),
          ),
        ),
      ),
    ),
    record {
      idle_time = refl;
      credential = refl;
      enable_reconnect = refl;
      reconnect_time = refl;
      max_connection = refl;
      ws_origin = refl;
      term = refl;
      show_location = refl;
      enable = refl;
      servers = refl;
    },
  )
