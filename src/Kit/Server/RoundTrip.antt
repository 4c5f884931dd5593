-- ===== src/Kit/Server/RoundTrip.antt =====
-- A snapshot that is loaded gives back the marks, the operations, the machines and the counters.
use bigfleet_providers.Prelude.{
  ℤ, String, List, [], ◌∷◌, map, none, get, insert, rebuild, Distinct, rebuild_lem, ◌≡◌, refl, ap,
  ◌∙◌, arith,
}
use bigfleet_providers.Kit.Lifecycle.Names.{kind_of_name-kind_name}
use bigfleet_providers.Kit.Fence.{FenceKey, FenceMark, fence_key}
use bigfleet_providers.Kit.Machine.{Machine, clone, clone_lem}
use bigfleet_providers.Kit.Server.{
  Server, OpKey, op_key, string_key, new_server, fence_record, op_record, snapshot, load_machines,
  load_fences, load_ops, load_snapshot,
}

-- Every machine stands under its own id.
abbrev pub KeyIsId : List (String × Machine) → Type 0
KeyIsId [] = Unit
KeyIsId (e ∷ ms) = (e.1.id ≡ e.0) × KeyIsId ms

-- Every machine was last modified at the revision `rev`.
abbrev pub stamps : ℤ → List (String × Machine) → List (String × ℤ)
stamps rev = map (λ e. (e.0, rev))

not_stamped :
    (rev : ℤ) (k : String) (ms : List (String × Machine))
    → get k ms ≡ none
    → get k (stamps rev ms) ≡ none
unfolding get
not_stamped rev k [] h = refl
not_stamped rev k (e ∷ ms) h = ground (arith, not_stamped rev k ms)

stamps-Distinct : (rev : ℤ) (ms : List (String × Machine)) → Distinct ms → Distinct (stamps rev ms)
stamps-Distinct rev [] d = tt
stamps-Distinct rev (e ∷ ms) d = (not_stamped rev e.0 ms d.0, stamps-Distinct rev ms d.1)

module _ {S : Type 0} where
  load_machines_lem :
      (rev : ℤ) (ms : List (String × Machine)) (s : Server S)
      → KeyIsId ms
      → load_machines rev (map (λ e. e.1) ms) s ≡ record s {
        machines = rebuild ms s.machines;
        last_mod = rebuild (stamps rev ms) s.last_mod;
      }
  unfolding load_machines rebuild
  load_machines_lem rev [] s h = refl
  load_machines_lem rev (e ∷ ms) s h =
      ap (λ k. load_machines rev records (placed k (clone e.1))) h.0
      ∙ ap (λ m. load_machines rev records (placed e.0 m)) (clone_lem e.1)
      ∙ load_machines_lem rev ms (placed e.0 e.1) h.1
    where
      records : List Machine
      records = map (λ f. f.1) ms

      placed : String → Machine → Server S
      placed k m = record s { machines = insert k m s.machines; last_mod = insert k rev s.last_mod }

  load_fences_lem :
      (fs : List (FenceKey × FenceMark)) (s : Server S)
      → load_fences (map fence_record fs) s ≡ record s { fences = rebuild fs s.fences }
  unfolding load_fences rebuild fence_record
  load_fences_lem [] s = refl
  load_fences_lem ((k, m) ∷ fs) s = load_fences_lem fs (record s { fences = insert k m s.fences })

  load_ops_lem :
      (os : List (OpKey × String)) (s : Server S)
      → load_ops (map op_record os) s ≡ record s { ops = rebuild os s.ops }
  unfolding load_ops rebuild op_record
  load_ops_lem [] s = refl
  load_ops_lem ((k, id) ∷ os) s =
      ap
        (λ kind.
          load_ops (map op_record os)
            (record s { ops = insert (record { id = k.id; k = kind }) id s.ops }))
        (kind_of_name-kind_name k.k)
      ∙ load_ops_lem os (record s { ops = insert k id s.ops })

  -- A server of which the maps have distinct keys, each machine under its id, is loaded back from
  -- its snapshot into a new server: the machines, marks, operations and counters are the same, and
  -- every machine counts as modified at the loaded revision.
  pub load_snapshot-snapshot :
      (s : Server S) (store : S)
      → KeyIsId s.machines
      → Distinct s.machines
      → Distinct s.fences
      → Distinct s.ops
      → load_snapshot (snapshot s) (new_server store)
        ≡ record s { last_mod = stamps s.rev s.machines; store = store }
  unfolding load_snapshot snapshot new_server
  load_snapshot-snapshot s store k dm df dn =
      rw (load_machines_lem, k, load_fences_lem, load_ops_lem, rebuild_lem s.machines [] dm)
        (rw (rebuild_lem s.fences [] df, rebuild_lem s.ops [] dn)
          (rw (rebuild_lem (stamps s.rev s.machines) [] (stamps-Distinct s.rev s.machines dm))))
