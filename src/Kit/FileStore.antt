-- ===== src/Kit/FileStore.antt =====
-- providerkit/filestore.go: the store in a file. `Codec` stands for encoding/json, `Faults` for the
-- system calls of one save that fail. Of the disk only the file and its temporary file are kept: a
-- failed write may leave any text in the temporary file.
pub mod Atomic
use bigfleet_providers.Prelude.{
  String, String-discrete, Bool, true, false, Option, none, some, Result, ok, err, ite,
  if◌then◌else◌,
}
use bigfleet_providers.Kit.Errors.{Error}
use bigfleet_providers.Kit.Store.{Snapshot, Store, empty_snapshot}

pub record Codec : Type 0 where
  pub encode : Snapshot → Option String
  pub decode : String → Option Snapshot

-- The content of the file, if there is one, and of its temporary file; `unreadable` is an error of
-- reading other than that there is no file.
pub record Disk : Type 0 where
  pub file : Option String
  pub temporary : Option String
  pub unreadable : Bool

-- The calls of a save that fail, and what a failed write leaves.
pub record Faults : Type 0 where
  pub create : Bool
  pub write : Bool
  pub torn : String
  pub sync : Bool
  pub close : Bool
  pub rename : Bool

module _ (codec : Codec) where
  decoded : Option Snapshot → Result Error Snapshot
  decoded none = err (Error.other "decode store")
  decoded (some snap) = ok snap

  read_file : Option String → Result Error Snapshot
  unfolding decoded
  read_file none = ok empty_snapshot
  read_file (some data_) =
      ite (String-discrete data_ "") (ok empty_snapshot) (decoded (codec.decode data_))

  -- `Load`.
  unfoldable pub load_file : Disk → Result Error Snapshot
  unfolding read_file decoded
  load_file d = if d.unreadable then err (Error.other "read store") else read_file d.file

  -- The deferred removal of the temporary file.
  unfoldable pub clean : Disk → Disk
  clean d = record d { temporary = none }

  -- From the creation of the temporary file on.
  unfoldable pub replace : Faults → String → Disk → Disk × Option Error
  unfolding clean
  replace f text d =
      if f.create
      then (d, some (Error.other "create temp store"))
      else if f.write
      then (clean (record d { temporary = some f.torn }), some (Error.other "write temp store"))
      else if f.sync
      then (clean (record d { temporary = some text }), some (Error.other "fsync temp store"))
      else if f.close
      then (clean (record d { temporary = some text }), some (Error.other "close temp store"))
      else if f.rename
      then (
        clean (record d { temporary = some text }),
        some (Error.other "rename store into place"),
      )
      else (clean (record d { file = some text; temporary = none }), none)

  encoded : Option String → Faults → Disk → Disk × Option Error
  encoded none f d = (d, some (Error.other "encode store"))
  encoded (some text) f d = replace f text d

  -- `Save`.
  unfoldable pub save_file : Faults → Snapshot → Disk → Disk × Option Error
  unfolding encoded
  save_file f s d = encoded (codec.encode s) f d

  -- The store, where the calls of each save fail as `f` says.
  abbrev pub file_store : Faults → Store Disk
  file_store f = record { load = load_file; save = save_file f }
