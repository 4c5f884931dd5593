-- ===== src/Tests/Providers.antt =====
-- The theorems on the parts of the providers.
use bigfleet_providers.Prelude.{
  String, String-discrete, true, some, List, [], ◌∷◌, ok, ◌≡◌, ◌≢◌, refl,
}
use bigfleet_providers.Prelude.Float.{Float}
use bigfleet_providers.Kit.Lifecycle.{CapacityType}
use bigfleet_providers.Aws.Interruption.{new_interruption, probability}
use bigfleet_providers.Aws.Interruption.Safety.{Notice, event, Risk, notice_all, probability-Risk}
use bigfleet_providers.Latitude.Index.{
  MachineState, Files, found, nil_panic, nil_dereference, machine_by_server, upsert, empty_index,
  is_text,
}
use bigfleet_providers.Latitude.Index.Safety.{
  Edit, put_state, drop_server, bind, edit, edit_all, edit_all-safe, machine_by_server-upsert,
}

-- A disk on which nothing can be written.
abbrev files : Files String
files = record { read = λ p d. ok []; write = λ p states d. (d, some "no space") }

abbrev state : MachineState
state = record {
  machine_id = "m1";
  server_id = "sv1";
  host_key_fp = "";
  user_data_id = "";
  cluster_id = "";
}

abbrev edits : List Edit
edits = put_state state ∷ put_state (record state { server_id = "sv2" }) ∷ bind "sv2" "c" ∷ []

edit_all-safe_example :
    (machine_by_server "sv1" (edit_all files edits (empty_index "f") "").index ≢ nil_panic)
    × ((edit files (drop_server "sv2") (edit_all files edits (empty_index "f") "").index "").error
        ≢ some nil_dereference)
edit_all-safe_example = edit_all-safe files edits "f" "" "" "sv1" (drop_server "sv2")

named : is_text "m1" ≡ true
unfolding String-discrete
named = refl

placed : is_text "sv1" ≡ true
unfolding String-discrete
placed = refl

machine_by_server-upsert_example :
    machine_by_server "sv1" (upsert files state (empty_index "f") "").index ≡ found state
machine_by_server-upsert_example =
    machine_by_server-upsert files state (empty_index "f") "" named placed

abbrev notices : List Notice
notices =
    event (ok (("i-1", "m1") ∷ []))
      (record { detail_type = "EC2 Spot Instance Interruption Warning"; instance_id = "i-1" })
    ∷ []

probability-Risk_example :
    (p : Float) × (probability "m1" "c7g.xlarge" CapacityType.spot
        (notice_all notices new_interruption)
      ≡ some p)
    × Risk p
probability-Risk_example = probability-Risk notices "m1" "c7g.xlarge"
