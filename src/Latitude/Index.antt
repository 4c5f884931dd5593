-- ===== src/Latitude/Index.antt =====
-- providers/latitude/substratestate.go: the index of the machines and their servers. The file is
-- the parameter `files`; a pointer of `byMachine` is the state that it points to, which no other
-- part of the program holds.
pub mod Linked
pub mod Safety
use bigfleet_providers.Prelude.{
  String, String-discrete, Bool, true, false, not, ◌&&◌, List, [], ◌∷◌, map, Option, none, some,
  Result, ok, err, get, insert, remove, Key, ite, if◌then◌else◌,
}
use bigfleet_providers.Kit.Server.{string_key}

pub record MachineState : Type 0 where
  pub machine_id : String
  pub server_id : String
  pub host_key_fp : String
  pub user_data_id : String
  pub cluster_id : String

pub record Index : Type 0 where
  pub path : String
  pub by_machine : List (String × MachineState)
  pub by_server : List (String × String)

-- What reading the file gives.
pub data ReadError : Type 0 where
  not_exist : ReadError
  unreadable : String → ReadError
  malformed : String → ReadError

-- The file system and the JSON codec, over the state `F` of the disk. An entry may be `null`.
pub record Files (F : Type 0) : Type 0 where
  pub read : String → F → Result ReadError (List (Option MachineState))
  pub write : String → List MachineState → F → F × Option String

-- A lookup that follows a dangling entry dereferences nil.
pub data Lookup : Type 0 where
  missing : Lookup
  found : MachineState → Lookup
  nil_panic : Lookup

pub data UpdateError : Type 0 where
  empty_machine_id : UpdateError
  not_saved : String → UpdateError
  nil_dereference : UpdateError

-- What an operation leaves, and its error.
pub record Update (F : Type 0) : Type 0 where
  pub index : Index
  pub disk : F
  pub error : Option UpdateError

abbrev pub is_text : String → Bool
is_text s = not (ite (String-discrete s "") true false)

abbrev pub empty_index : String → Index
empty_index path = record { path = path; by_machine = []; by_server = [] }

-- `byServer[server] = machine`, where there is a server.
unfoldable pub link : String → String → List (String × String) → List (String × String)
link server machine m = if is_text server then insert server machine m else m

-- One round of the loop of `newSubstrateIndex`.
unfoldable pub load_one : Option MachineState → Index → Index
unfolding link
load_one none ix = ix
load_one (some st) ix =
    if is_text st.machine_id
    then record ix {
      by_machine = insert st.machine_id st ix.by_machine;
      by_server = link st.server_id st.machine_id ix.by_server;
    }
    else ix

unfoldable pub load_all : List (Option MachineState) → Index → Index
load_all [] ix = ix
load_all (o ∷ os) ix = load_all os (load_one o ix)

load_result : Result ReadError (List (Option MachineState)) → String → Result ReadError Index
load_result (err not_exist) path = ok (empty_index path)
load_result (err (unreadable e)) path = err (unreadable e)
load_result (err (malformed e)) path = err (malformed e)
load_result (ok states) path = ok (load_all states (empty_index path))

-- `newSubstrateIndex`.
unfoldable pub new_substrate_index : {F : Type 0} → Files F → String → F → Result ReadError Index
unfolding load_result
new_substrate_index files path disk =
    if is_text path then load_result (files.read path disk) path else ok (empty_index path)

unfoldable pub lookup_state : Option MachineState → Lookup
lookup_state none = nil_panic
lookup_state (some st) = found st

unfoldable pub lookup_server : Option String → Index → Lookup
lookup_server none ix = missing
lookup_server (some id) ix = lookup_state (get id ix.by_machine)

abbrev pub machine_by_id : String → Index → Option MachineState
machine_by_id id ix = get id ix.by_machine

unfoldable pub machine_by_server : String → Index → Lookup
unfolding lookup_server lookup_state
machine_by_server server ix = lookup_server (get server ix.by_server) ix

-- The entry of the server that a machine had and has no more.
unfoldable pub unlink :
    Option MachineState → String → List (String × String) → List (String × String)
unlink none server m = m
unlink (some prev) server m =
    if is_text prev.server_id && not (ite (String-discrete prev.server_id server) true false)
    then remove prev.server_id m
    else m

-- What `upsert` makes of the maps.
unfoldable pub put : MachineState → Index → Index
put st ix = record ix {
  by_machine = insert st.machine_id st ix.by_machine;
  by_server =
      link st.server_id st.machine_id
        (unlink (get st.machine_id ix.by_machine) st.server_id ix.by_server);
}

module _ {F : Type 0} (files : Files F) where
  unfoldable pub saved : F × Option String → Index → Update F
  saved (disk, none) ix = record { index = ix; disk = disk; error = none }
  saved (disk, some e) ix = record { index = ix; disk = disk; error = some (not_saved e) }

  -- `save`, with the states in one order.
  unfoldable pub save : Index → F → Update F
  unfolding saved
  save ix disk =
      if is_text ix.path
      then saved (files.write ix.path (map (λ e. e.1) ix.by_machine) disk) ix
      else record { index = ix; disk = disk; error = none }

  unfoldable pub upsert : MachineState → Index → F → Update F
  upsert st ix disk =
      if is_text st.machine_id
      then save (put st ix) disk
      else record { index = ix; disk = disk; error = some empty_machine_id }

  unfoldable pub set_state : Option MachineState → String → String → Index → F → Update F
  set_state none id cluster ix disk = record {
    index = ix;
    disk = disk;
    error = some nil_dereference;
  }
  set_state (some st) id cluster ix disk =
      save (record ix { by_machine = insert id (record st { cluster_id = cluster }) ix.by_machine })
        disk

  unfoldable pub set_bound : Option String → String → Index → F → Update F
  unfolding set_state
  set_bound none cluster ix disk = record { index = ix; disk = disk; error = none }
  set_bound (some id) cluster ix disk = set_state (get id ix.by_machine) id cluster ix disk

  unfoldable pub set_cluster : String → String → Index → F → Update F
  unfolding set_bound
  set_cluster server cluster ix disk = set_bound (get server ix.by_server) cluster ix disk

  unfoldable pub remove_bound : Option String → String → Index → F → Update F
  remove_bound none server ix disk = record { index = ix; disk = disk; error = none }
  remove_bound (some id) server ix disk =
      save
        (record ix { by_machine = remove id ix.by_machine; by_server = remove server ix.by_server })
        disk

  unfoldable pub remove_by_server : String → Index → F → Update F
  unfolding remove_bound
  remove_by_server server ix disk = remove_bound (get server ix.by_server) server ix disk
