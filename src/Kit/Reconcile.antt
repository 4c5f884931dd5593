-- ===== src/Kit/Reconcile.antt =====
-- providerkit/server.go: `Reconcile`, the periodic refresh of the inventory.
pub mod Keeps
pub mod Refresh
pub mod Contract
use bigfleet_providers.Prelude.{
  String, String-discrete, Bool, true, false, not, ◌&&◌, ◌||◌, Option, none, some, List, [], ◌∷◌,
  ◌==◌, length, get, insert, ite, Result, ok, err, if◌then◌else◌,
}
use bigfleet_providers.Prelude.Float.{Float, eq_float}
use bigfleet_providers.Kit.Errors.{Error, Defect}
use bigfleet_providers.Kit.Machine.{StringMap, Machine, clone_map}
use bigfleet_providers.Kit.Instance.{Instance, validate, to_machine}
use bigfleet_providers.Kit.Server.{Config, Server, string_key, touch, persist_if}

-- The entries of a map: a nil map has none.
abbrev pub entries : StringMap → List (String × String)
entries none = []
entries (some m) = m

-- `b[k]`, "" where the key is missing.
unfoldable pub value_at : List (String × String) → String → String
value_at b k = elim (get k b) [ none ↦ "" | some v ↦ v ]

-- The loop of `mapsEqual`.
values_match : List (String × String) → List (String × String) → Bool
values_match [] b = true
values_match ((k, v) ∷ a) b = ite (String-discrete (value_at b k) v) true false && values_match a b

-- `mapsEqual`.
unfoldable pub maps_equal : StringMap → StringMap → Bool
unfolding values_match
maps_equal a b =
    if not (length (entries a) == length (entries b))
    then false
    else values_match (entries a) (entries b)

refresh_price : Instance → Machine × Bool → Machine × Bool
refresh_price i (cur, changed) =
    if eq_float cur.price_per_hour i.price_per_hour
    then (cur, changed)
    else (record cur { price_per_hour = i.price_per_hour }, true)

refresh_probability : Instance → Machine × Bool → Machine × Bool
refresh_probability i (cur, changed) =
    if eq_float cur.interruption_probability i.interruption_probability
    then (cur, changed)
    else (record cur { interruption_probability = i.interruption_probability }, true)

refresh_resources : Instance → Machine × Bool → Machine × Bool
refresh_resources i (cur, changed) =
    if not (maps_equal cur.resources i.resources)
    then (record cur { resources = clone_map i.resources }, true)
    else (cur, changed)

refresh_allocatable : Instance → Machine × Bool → Machine × Bool
refresh_allocatable i (cur, changed) =
    if not (maps_equal cur.allocatable i.allocatable)
    then (record cur { allocatable = clone_map i.allocatable }, true)
    else (cur, changed)

refresh_labels : Instance → Machine × Bool → Machine × Bool
refresh_labels i (cur, changed) =
    if not (maps_equal cur.labels i.labels)
    then (record cur { labels = clone_map i.labels }, true)
    else (cur, changed)

-- `refreshSubstrate`: the record that it writes in place, field by field, and whether it changed
-- any. A field is compared as it is when its turn comes.
unfoldable pub refresh_substrate : Machine → Instance → Machine × Bool
unfolding refresh_price refresh_probability refresh_resources refresh_allocatable refresh_labels
refresh_substrate cur i = refresh_labels i (
    refresh_allocatable i
      (refresh_resources i (refresh_probability i (refresh_price i (cur, false)))))

module _ {S : Type 0} where
  -- A valid instance, against the record that the kit has: the server, and whether it changed.
  unfoldable pub merge : Option Machine → Instance → Server S → Server S × Bool
  merge none i s =
      (touch i.id (record s { machines = insert i.id (to_machine i) s.machines }), true)
  merge (some cur) i s =
      let (cur', changed) = refresh_substrate cur i in
      let s' = record s { machines = insert i.id cur' s.machines } in
      if changed then (touch i.id s', true) else (s', false)

  -- An invalid instance is skipped.
  unfoldable pub merge_valid : Option Defect → Instance → Server S → Server S × Bool
  unfolding merge
  merge_valid none i s = merge (get i.id s.machines) i s
  merge_valid (some defect) i s = (s, false)

  -- One round of the loop of `Reconcile`.
  unfoldable pub reconcile_one : Bool → Instance → Server S → Server S × Bool
  unfolding merge_valid
  reconcile_one require_zone i s = merge_valid (validate require_zone i) i s

  unfoldable pub reconcile_all : Bool → List Instance → Server S → Server S × Bool
  reconcile_all require_zone [] s = (s, false)
  reconcile_all require_zone (i ∷ is) s =
      let (s', changed) = reconcile_one require_zone i s in
      let (s'', more) = reconcile_all require_zone is s' in (s'', changed || more)

unfoldable pub reconcile_with :
    {B S : Type 0}
    → Config B S
    → Result Error (List Instance)
    → Server S
    → Result Error (Unit {0}) × Server S
reconcile_with cfg (err e) s = (err (Error.describe_failed e), s)
reconcile_with cfg (ok instances) s =
    let (s', changed) = reconcile_all cfg.opts.require_zone instances s in
    (ok tt, persist_if cfg.store changed s')

-- `Reconcile`; `b` is the state of the substrate.
unfoldable pub reconcile :
    {B S : Type 0} → Config B S → B → Server S → Result Error (Unit {0}) × Server S
unfolding reconcile_with
reconcile cfg b s = reconcile_with cfg (cfg.backend.describe b) s
