-- ===== src/Latitude/Index/Safety.antt =====
-- No sequence of operations on the index, from an empty one, dereferences nil.
use bigfleet_providers.Prelude.{
  String, true, List, [], ◌∷◌, Option, none, some, get, get-insert_eq, get-insert_self, ◌≡◌, ◌≢◌,
  refl, inl, inr, Bool-cases,
}
use bigfleet_providers.Kit.Server.{string_key}
use bigfleet_providers.Latitude.Index.{
  MachineState, Index, Files, Update, nil_dereference, is_text, found, nil_panic, link, put, save,
  saved, upsert, set_cluster, set_state, set_bound, remove_by_server, remove_bound,
  machine_by_server, lookup_server, lookup_state, empty_index,
}
use bigfleet_providers.Latitude.Index.Linked.{Linked, put-Linked, bind-Linked, drop-Linked}

-- A call of one of the operations that change the index.
pub data Edit : Type 0 where
  put_state : MachineState → Edit
  bind : String → String → Edit
  drop_server : String → Edit

-- The index is linked, and the operation met no nil.
record Safe {F : Type 0} (u : Update F) : Type 0 where
  linked : Linked u.index
  no_nil : u.error ≢ some nil_dereference

module _ {F : Type 0} (files : Files F) where
  unfoldable pub edit : Edit → Index → F → Update F
  edit (put_state st) ix disk = upsert files st ix disk
  edit (bind server cluster) ix disk = set_cluster files server cluster ix disk
  edit (drop_server server) ix disk = remove_by_server files server ix disk

  -- The operations one after the other.
  unfoldable pub edit_all : List Edit → Index → F → Update F
  edit_all [] ix disk = record { index = ix; disk = disk; error = none }
  edit_all (e ∷ es) ix disk = let u = edit e ix disk in edit_all es u.index u.disk

  saved-Safe : (r : F × Option String) (ix : Index) → Linked ix → Safe (saved files r ix)
  unfolding saved
  saved-Safe (disk, none) ix l = record { linked = l; no_nil = λ e. cc }
  saved-Safe (disk, some x) ix l = record { linked = l; no_nil = λ e. cc }

  save-Safe : (ix : Index) (disk : F) → Linked ix → Safe (save files ix disk)
  unfolding save
  save-Safe ix disk l = elim (Bool-cases (is_text ix.path)) [
    | inl y ↦ rw y (saved-Safe _ ix l)
    | inr n ↦ rw n (record { linked = l; no_nil = λ e. cc })
  ]

  put-Safe :
      (st : MachineState) (ix : Index) (disk : F) → Linked ix → Safe (upsert files st ix disk)
  unfolding upsert
  put-Safe st ix disk l = elim (Bool-cases (is_text st.machine_id)) [
    | inl y ↦ rw y (save-Safe (put st ix) disk (put-Linked ix l st))
    | inr n ↦ rw n (record { linked = l; no_nil = λ e. cc })
  ]

  state-Safe :
      (o : Option MachineState) (id cluster : String) (ix : Index) (disk : F)
      → get id ix.by_machine ≡ o
      → o ≢ none
      → Linked ix
      → Safe (set_state files o id cluster ix disk)
  unfolding set_state
  state-Safe none id cluster ix disk h n l = absurd (n refl)
  state-Safe (some st) id cluster ix disk h n l =
      save-Safe _ disk (bind-Linked ix l id cluster st h)

  bound-Safe :
      (o : Option String) (server cluster : String) (ix : Index) (disk : F)
      → get server ix.by_server ≡ o
      → Linked ix
      → Safe (set_bound files o cluster ix disk)
  unfolding set_bound
  bound-Safe none server cluster ix disk h l = record { linked = l; no_nil = λ e. cc }
  bound-Safe (some id) server cluster ix disk h l =
      let (st, e, r) = l.linked server id h in
      state-Safe (get id ix.by_machine) id cluster ix disk refl (λ n. cc (e, n)) l

  drop-Safe :
      (o : Option String) (server : String) (ix : Index) (disk : F)
      → get server ix.by_server ≡ o
      → Linked ix
      → Safe (remove_bound files o server ix disk)
  unfolding remove_bound
  drop-Safe none server ix disk h l = record { linked = l; no_nil = λ e. cc }
  drop-Safe (some id) server ix disk h l = save-Safe _ disk (drop-Linked ix l server id h)

  edit-Safe : (e : Edit) (ix : Index) (disk : F) → Linked ix → Safe (edit e ix disk)
  unfolding edit set_cluster remove_by_server
  edit-Safe (put_state st) ix disk l = put-Safe st ix disk l
  edit-Safe (bind server cluster) ix disk l = bound-Safe _ server cluster ix disk refl l
  edit-Safe (drop_server server) ix disk l = drop-Safe _ server ix disk refl l

  edit_all-Linked :
      (es : List Edit) (ix : Index) (disk : F) → Linked ix → Linked (edit_all es ix disk).index
  unfolding edit_all
  edit_all-Linked [] ix disk l = l
  edit_all-Linked (e ∷ es) ix disk l = edit_all-Linked es _ _ (edit-Safe e ix disk l).linked

lookup_state-safe : (o : Option MachineState) → o ≢ none → lookup_state o ≢ nil_panic
unfolding lookup_state
lookup_state-safe none n = λ e. n refl
lookup_state-safe (some st) n = λ e. cc

lookup-safe :
    (o : Option String) (server : String) (ix : Index)
    → get server ix.by_server ≡ o
    → Linked ix
    → lookup_server o ix ≢ nil_panic
unfolding lookup_server
lookup-safe none server ix h l = λ e. cc
lookup-safe (some id) server ix h l =
    let (st, q, r) = l.linked server id h in
    lookup_state-safe (get id ix.by_machine) (λ n. cc (q, n))

empty-Linked : (path : String) → Linked (empty_index path)
unfolding get
empty-Linked path = record { linked = λ s id h. cc; named = refl }

-- After any sequence of upserts, bindings and removals on an empty index, whatever the disk does,
-- no lookup by a server dereferences nil, nor does one more operation.
pub edit_all-safe :
    {F : Type 0} (files : Files F) (es : List Edit) (path : String) (disk disk' : F)
    (server : String) (e : Edit)
    → (machine_by_server server (edit_all files es (empty_index path) disk).index ≢ nil_panic)
      × ((edit files e (edit_all files es (empty_index path) disk).index disk').error
          ≢ some nil_dereference)
unfolding machine_by_server
edit_all-safe files es path disk disk' server e =
    let l = edit_all-Linked files es (empty_index path) disk (empty-Linked path) in
    (lookup-safe _ server _ refl l, (edit-Safe files e _ disk' l).no_nil)

lookup_put :
    (o : Option String) (st : MachineState) (ix : Index)
    → o ≡ some st.machine_id
    → lookup_server o (put st ix) ≡ found st
unfolding lookup_server lookup_state put
lookup_put none st ix h = cc
lookup_put (some id) st ix h = rw (get-insert_eq id st.machine_id st ix.by_machine (same id h)) refl
  where
    same : (id : String) → some id ≡ some st.machine_id → st.machine_id ≡ id
    same id e = cc

get-put :
    (st : MachineState) (ix : Index)
    → is_text st.server_id ≡ true
    → get st.server_id (put st ix).by_server ≡ some st.machine_id
unfolding put link
get-put st ix h = rw h (get-insert_self st.server_id st.machine_id _)

saved-index :
    {F : Type 0} (files : Files F) (r : F × Option String) (ix : Index)
    → (saved files r ix).index ≡ ix
unfolding saved
saved-index files (disk, none) ix = refl
saved-index files (disk, some e) ix = refl

save-index :
    {F : Type 0} (files : Files F) (ix : Index) (disk : F) → (save files ix disk).index ≡ ix
unfolding save
save-index files ix disk = elim (Bool-cases (is_text ix.path)) [
  | inl y ↦ rw y (saved-index files _ ix)
  | inr n ↦ rw n refl
]

-- A state with a machine and a server, once it is put, is what a lookup by its server finds,
-- whether or not the file could be written.
pub machine_by_server-upsert :
    {F : Type 0} (files : Files F) (st : MachineState) (ix : Index) (disk : F)
    → is_text st.machine_id ≡ true
    → is_text st.server_id ≡ true
    → machine_by_server st.server_id (upsert files st ix disk).index ≡ found st
unfolding machine_by_server upsert
machine_by_server-upsert files st ix disk m t =
    rw (m, save-index files (put st ix) disk) (lookup_put _ st ix (get-put st ix t))
