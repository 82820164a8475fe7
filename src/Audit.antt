-- ===== src/Audit.antt =====
-- audit/audit.go: `LogTo`, which copies the output of a container's terminal into a file. The file
-- system's answers during the call are a record, `Os`.
mod Record
mod Tests
use container_web_tty.Base.{
  ltb, if◌then◌else◌, length, take, drop, replicate, Bytes, str, has_prefix, split, ℕ, ◌+◌, ◌-◌,
  Bool, not, ◌&&◌, ◌||◌, Option, none, some, List, [], ◌∷◌, ◌++◌,
}
use container_web_tty.Base.Int.{show_nat}
use container_web_tty.Base.FilePath.{join_path}

pub record LogOpts : Type 0 where
  pub dir : Bytes
  pub container_id : Bytes
  pub client_ip : Bytes

pub record Os : Type 0 where
  pub getwd : Option Bytes
  pub is_not_exist : Bytes → Bool
  pub mkdir_all : Bytes → Bool
  pub create : Bytes → Bool
  pub unix : ℕ

-- The part of `LogTo` before its loop: a panic, an error that is logged, or the file's path.
pub data Prepared : Type 0 where
  panics : Prepared
  gives_up : Prepared
  writes_to : Bytes → Prepared

-- `opts.Dir`, made absolute; `none` where the working directory is unknown.
unfoldable pub absolute : Os → Bytes → Option Bytes
absolute os dir =
    if has_prefix (str "/") dir
    then some dir
    else elim os.getwd [ none ↦ none | some pwd ↦ some (join_path pwd dir) ]

-- `strings.Split(ClientIP, ":")[0]`, before the time.
unfoldable pub file_name : Bytes → ℕ → Bytes
file_name ip unix = host (split b':' ip) ++ (str "-" ++ (show_nat unix ++ str ".log"))
  where
    host : List Bytes → Bytes
    host [] = []
    host (w ∷ ws) = w

unfoldable pub prepare : Os → LogOpts → Prepared
unfolding absolute file_name
prepare os opts = elim (absolute os opts.dir) [
  | none ↦ gives_up
  | some dir ↦
      if ltb (length opts.container_id) 12
      then panics
      else (let log_dir = join_path dir (take 12 opts.container_id) in
          let path = join_path log_dir (file_name opts.client_ip os.unix) in
          if os.is_not_exist log_dir && not (os.mkdir_all log_dir)
          then gives_up
          else if os.create path
          then writes_to path
          else gives_up)
]

-- `f.WriteAt(data, start)`: a gap is filled with zero bytes.
unfoldable pub write_at : ℕ → Bytes → Bytes → Bytes
write_at start bytes file =
    take start (file ++ replicate (start - length file) 0)
    ++ (bytes ++ drop (start + length bytes) file)

-- One round of the loop: whether the context is done, what `Read` gives, and, where `WriteAt`
-- fails, how many bytes it has written.
pub record Round : Type 0 where
  pub cancelled : Bool
  pub bytes : Bytes
  pub read_failed : Bool
  pub failed_after : Option ℕ

-- The loop, with its variable `start` and the file.
unfoldable pub log_loop : List Round → ℕ → Bytes → Bytes
log_loop [] start file = file
log_loop (r ∷ rest) start file =
    let others = log_loop rest (start + length r.bytes) (write_at start r.bytes file) in
    if r.cancelled || r.read_failed
    then file
    else elim r.failed_after [ some k ↦ write_at start (take k r.bytes) file | none ↦ others ]

-- The file after the loop on a new file.
unfoldable pub log_to : List Round → Bytes
unfolding log_loop
log_to rounds = log_loop rounds 0 []
