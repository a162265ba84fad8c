-- ===== src/WriteJson.antt =====
-- write_json and load_json of rkcdp/rkcdpd.py, write_json of rkcdp/rkcdp-seed.py and Progress.flush of
-- rkcdp/rkcdp-rebuild.py: a document is written beside the file and renamed over it. A file has what
-- the calls show of it at once; what a power failure leaves of it is as fsync(2) and rename(2) say.
pub mod Survived
use io_filter_driver_for_lin.Base.{
  ℕ, ◌≡◌, ◌⊎◌, Bool, true, false, Option, none, some, List, [], ◌∷◌, ◌++◌, if◌then◌else◌,
}

-- `synced`: fsync has transferred all of the bytes to the disk.
pub record FileState : Type 0 where
  pub bytes : List ℕ
  pub synced : Bool

-- The file at the path, the one at path + ".tmp", and those that the path had before, as far as the
-- directory on the disk may still name them.
pub record Disk : Type 0 where
  pub path : Option FileState
  pub tmp : Option FileState
  pub before : List (Option FileState)

-- open(tmp, "w"), f.write, os.fsync and os.replace(tmp, path)
pub data FileCall : Type 0 where
  open_tmp : FileCall
  write : List ℕ → FileCall
  fsync : FileCall
  replace : FileCall

abbrev pub written : List ℕ → Option FileState → Option FileState
written bytes none = none
written bytes (some f) = some (record { bytes = f.bytes ++ bytes; synced = false })

abbrev pub synced_file : Option FileState → Option FileState
synced_file none = none
synced_file (some f) = some (record f { synced = true })

unfoldable pub call : FileCall → Disk → Disk
call open_tmp d = record d { tmp = some (record { bytes = []; synced = false }) }
call (write bytes) d = record d { tmp = written bytes d.tmp }
call fsync d = record d { tmp = synced_file d.tmp }
call replace d = record { path = d.tmp; tmp = none; before = d.path ∷ d.before }

unfoldable pub calls : List FileCall → Disk → Disk
calls [] d = d
calls (c ∷ rest) d = calls rest (call c d)

-- json.dump writes the document in pieces.
abbrev pub dump : List (List ℕ) → List FileCall → List FileCall
dump [] rest = rest
dump (piece ∷ pieces) rest = write piece ∷ dump pieces rest

-- The calls of rkcdpd.py, which has the fsync.
unfoldable pub write_json : List (List ℕ) → List FileCall
write_json pieces = open_tmp ∷ dump pieces (fsync ∷ replace ∷ [])

-- The calls of rkcdp-seed.py, which has none.
unfoldable pub write_unsynced : List (List ℕ) → List FileCall
write_unsynced pieces = open_tmp ∷ dump pieces (replace ∷ [])

-- Progress.flush of rkcdp-rebuild.py, and whether it has a path.
unfoldable pub flush : Bool → List (List ℕ) → List FileCall
flush has_path pieces = if has_path then open_tmp ∷ dump pieces (replace ∷ []) else []

-- load_json(path) of rkcdpd.py, where `parse` is json.load: `none` is its exception, and `some none` the
-- default.
unfoldable pub load_json {ℓ} :
    {A : Type ℓ} → (List ℕ → Option A) → Option (List ℕ) → Option (Option A)
load_json parse none = some none
load_json parse (some bytes) = elim (parse bytes) [ none ↦ none | some a ↦ some (some a) ]

-- load_json(path, default) of rkcdp-seed.py, which gives the default for any exception.
unfoldable pub load_or_default {ℓ} : {A : Type ℓ} → (List ℕ → Option A) → A → Option (List ℕ) → A
load_or_default parse default none = default
load_or_default parse default (some bytes) = elim (parse bytes) [ none ↦ default | some a ↦ a ]
