-- ===== src/Endpoint/Selection.antt =====
-- internal/server/primary_endpoint.go: the selection that the manager asks of the compute, its
-- file, and the test that an applied selection is the one asked for. JSON is written and read back
-- whole, so the file is the selection that it encodes.
use neon_selfhost.Prelude.{
  ◌≡◌, Text, Bool, true, false, Option, none, some, Result, ok, err, is_empty, text_eq, ◌&&◌, ◌||◌,
  if◌then◌else◌, arith,
}
use neon_selfhost.Prelude.Trim.{trim_space}
use neon_selfhost.Prelude.Case.{equal_fold}

pub record Selection : Type 0 where
  pub generation : Text
  pub branch : Text
  pub tenant_id : Text
  pub timeline_id : Text
  pub password : Text

-- What `os.ReadFile` and `json.Unmarshal` find at the path.
pub data SelectionFile : Type 0 where
  no_file unreadable undecodable : SelectionFile
  selects : Selection → SelectionFile

pub data ReadFault : Type 0 where
  not_read not_decoded : ReadFault

-- `loadEndpointSelection` at a path that is not blank: `none` where there is no file
unfoldable pub load_endpoint_selection : SelectionFile → Result ReadFault (Option Selection)
load_endpoint_selection SelectionFile.no_file = ok none
load_endpoint_selection SelectionFile.unreadable = err ReadFault.not_read
load_endpoint_selection SelectionFile.undecodable = err ReadFault.not_decoded
load_endpoint_selection (SelectionFile.selects s) = ok (some s)

pub data WriteFault : Type 0 where
  no_directory not_encoded no_temp_file not_written not_permitted not_closed not_renamed :
      WriteFault

-- Whether each call that a write makes succeeds.
pub record WriteIo : Type 0 where
  pub mkdir_all : Bool
  pub marshal : Bool
  pub create_temp : Bool
  pub write : Bool
  pub chmod : Bool
  pub close : Bool
  pub rename : Bool

abbrev pub all_succeed : WriteIo
all_succeed = record {
  mkdir_all = true;
  marshal = true;
  create_temp = true;
  write = true;
  chmod = true;
  close = true;
  rename = true;
}

-- The first call that fails ends the write, and the file is as it was.
abbrev pub unless_failed : WriteFault → Bool → Option WriteFault → Option WriteFault
unless_failed f true next = next
unless_failed f false next = some f

unfoldable pub write_fault : WriteIo → Option WriteFault
write_fault io = unless_failed WriteFault.no_directory io.mkdir_all (
    unless_failed WriteFault.not_encoded io.marshal (
      unless_failed WriteFault.no_temp_file io.create_temp (
        unless_failed WriteFault.not_written io.write (
          unless_failed WriteFault.not_permitted io.chmod (
            unless_failed WriteFault.not_closed io.close
              (unless_failed WriteFault.not_renamed io.rename none))))))

abbrev pub renamed :
    Selection → SelectionFile → Option WriteFault → SelectionFile × Option WriteFault
renamed s file none = (SelectionFile.selects s, none)
renamed s file (some f) = (file, some f)

-- `writeEndpointSelection`: at a blank path there is nothing to write
unfoldable pub write_endpoint_selection :
    Text → WriteIo → Selection → SelectionFile → SelectionFile × Option WriteFault
unfolding write_fault
write_endpoint_selection path io s file =
    if is_empty (trim_space path) then (file, none) else renamed s file (write_fault io)

abbrev pub fold_matches : Text → Text → Bool
fold_matches s t = equal_fold (trim_space s) (trim_space t)

-- An expected generation that is blank fits every generation.
unfoldable pub endpoint_selections_match : Selection → Selection → Bool
endpoint_selections_match applied expected =
    (is_empty (trim_space expected.generation)
      || text_eq (trim_space applied.generation) (trim_space expected.generation))
    && fold_matches applied.branch expected.branch
    && fold_matches applied.tenant_id expected.tenant_id
    && fold_matches applied.timeline_id expected.timeline_id

-- What a write leaves: the selection asked for where it succeeds at a path, else the old file.
pub write_endpoint_selection-fails :
    (path : Text) (io : WriteIo) (s : Selection) (file : SelectionFile) (f : WriteFault)
    → (write_endpoint_selection path io s file).1 ≡ some f
    → (write_endpoint_selection path io s file).0 ≡ file
unfolding write_endpoint_selection
write_endpoint_selection-fails path io s file f h = ground arith
