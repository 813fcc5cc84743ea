-- ===== src/Branch/File.antt =====
-- internal/branch/persistence.go: the state file, its write and its read. The file system answers
-- each call with success or a fault; JSON is written and read back whole, so the file is the
-- snapshot that it encodes. `os.Rename` replaces the file at once or leaves it alone.
use neon_selfhost.Prelude.{◌≡◌, Option, none, some, List, Result, ok, err, arith}
use neon_selfhost.Branch.Types.{Branch, Fault}

-- What `os.ReadFile` and `json.Unmarshal` find at the path.
pub data StateFile : Type 0 where
  absent unreadable corrupt : StateFile
  holds : List Branch → StateFile

-- The outcome of each call that a write makes.
pub record FileIo : Type 0 where
  pub mkdir : Option Fault
  pub marshal : Option Fault
  pub create_temp : Option Fault
  pub write : Option Fault
  pub close : Option Fault
  pub rename : Option Fault

abbrev pub healthy : FileIo
healthy = record {
  mkdir = none;
  marshal = none;
  create_temp = none;
  write = none;
  close = none;
  rename = none;
}

-- The first call that fails ends the write.
abbrev pub or_else : Option Fault → StateFile × Option Fault → StateFile → StateFile × Option Fault
or_else none next file = next
or_else (some f) next file = (file, some f)

unfoldable pub persist_state_file : FileIo → List Branch → StateFile → StateFile × Option Fault
persist_state_file io branches file =
    or_else io.mkdir
      (or_else io.marshal
        (or_else io.create_temp
          (or_else io.write (or_else io.close (or_else io.rename (holds branches, none) file) file)
            file)
          file)
        file)
      file

pub data LoadError : Type 0 where
  dir_required read_failed decode_failed : LoadError
  persist_initial : Fault → LoadError
  snapshot_empty blank_name duplicate_branch main_required main_deleted unknown_parent : LoadError

-- `loadPersistedState`: `none` where the file does not exist
unfoldable pub load_persisted_state : StateFile → Result LoadError (Option (List Branch))
load_persisted_state absent = ok none
load_persisted_state unreadable = err read_failed
load_persisted_state corrupt = err decode_failed
load_persisted_state (holds branches) = ok (some branches)

-- A failed write leaves the file as it was.
pub persist_state_file-fails :
    (io : FileIo) (l : List Branch) (file : StateFile) (f : Fault)
    → (persist_state_file io l file).1 ≡ some f
    → (persist_state_file io l file).0 ≡ file
unfolding persist_state_file
persist_state_file-fails io l file f h = ground arith

pub persist_state_file-writes :
    (io : FileIo) (l : List Branch) (file : StateFile)
    → (persist_state_file io l file).1 ≡ none
    → (persist_state_file io l file).0 ≡ holds l
unfolding persist_state_file
persist_state_file-writes io l file h = ground arith
