-- ===== src/Kit/Startup/Recovery.antt =====
-- What the recovery does to each machine: one in a transitional state becomes FAILED with the kind
-- of its interrupted transition, any other stays.
use bigfleet_providers.Prelude.{
  String, String-discrete, Bool, true, false, List, [], ◌∷◌, Option, none, some, get,
  get-insert_self, get-insert_ne, ◌≡◌, ◌≢◌, refl, ap, ◌∙◌, arith, inl, inr, Bool-cases,
  if◌then◌else◌, ite, if_pos, if_neg,
}
use bigfleet_providers.Kit.Errors.{Error}
use bigfleet_providers.Kit.Lifecycle.{State}
use bigfleet_providers.Kit.Machine.{Machine}
use bigfleet_providers.Kit.Server.{Config, Server, string_key, touch, persist, persist_if}
use bigfleet_providers.Kit.Startup.{
  interrupted, is_transitional, transitional_kind, recover_machine, recover_all, recover,
}

-- The record that a machine recovers to.
unfoldable pub recovered : Machine → Machine
recovered m = if is_transitional m.state then interrupted m else m

unfoldable pub is_listed : String → List String → Bool
is_listed j [] = false
is_listed j (id ∷ ids) = ite (String-discrete id j) true (is_listed j ids)

-- Every machine is in the order.
abbrev pub Covers : List String → List (String × Machine) → Type 0
Covers order machines =
    (j : String) (m : Machine) → get j machines ≡ some m → is_listed j order ≡ true

recovered_twice : (m : Machine) → recovered (recovered m) ≡ recovered m
unfolding recovered interrupted
recovered_twice m = ground arith

abbrev pub recovered_if : Bool → Option Machine → Option Machine
recovered_if true none = none
recovered_if true (some m) = some (recovered m)
recovered_if false o = o

pub recovered_if-none : (b : Bool) → recovered_if b none ≡ none
recovered_if-none true = refl
recovered_if-none false = refl

recovered_if_twice :
    (b : Bool) (o : Option Machine) → recovered_if b (recovered_if true o) ≡ recovered_if true o
recovered_if_twice true none = refl
recovered_if_twice false none = refl
recovered_if_twice true (some m) = ap some (recovered_twice m)
recovered_if_twice false (some m) = refl

module _ {S : Type 0} where
  get-recover_self :
      (id : String) (o : Option Machine) (s : Server S)
      → get id s.machines ≡ o
      → get id (recover_machine o id s).0.machines ≡ recovered_if true o
  unfolding recover_machine touch recovered
  get-recover_self id none s h = h
  get-recover_self id (some m) s h = elim (Bool-cases (is_transitional m.state)) [
    | inl y ↦ rw y (get-insert_self id (interrupted m) s.machines)
    | inr n ↦ rw n h
  ]

  get-recover_other :
      (j id : String) (o : Option Machine) (s : Server S)
      → id ≢ j
      → get j (recover_machine o id s).0.machines ≡ get j s.machines
  unfolding recover_machine touch
  get-recover_other j id none s n = refl
  get-recover_other j id (some m) s n = elim (Bool-cases (is_transitional m.state)) [
    | inl y ↦ rw y (get-insert_ne j id (interrupted m) s.machines n)
    | inr x ↦ rw x refl
  ]

  get-recover_machine :
      (id : String) (s : Server S)
      → get id (recover_machine (get id s.machines) id s).0.machines
        ≡ recovered_if true (get id s.machines)
  get-recover_machine id s = get-recover_self id (get id s.machines) s refl

  -- After the loop, every machine whose id is in the order is recovered, and no other changes.
  pub get-recover_all :
      (j : String) (order : List String) (s : Server S)
      → get j (recover_all order s).0.machines ≡ recovered_if (is_listed j order) (get j s.machines)
  unfolding recover_all is_listed
  get-recover_all j [] s = refl
  get-recover_all j (id ∷ ids) s =
      get-recover_all j ids (recover_machine (get id s.machines) id s).0
      ∙ elim (String-discrete id j) [
        | yes e ↦ rw (if_pos (String-discrete id j) e true (is_listed j ids)) (
            ap (recovered_if (is_listed j ids)) (here e)
            ∙ recovered_if_twice (is_listed j ids) (get j s.machines))
        | no n ↦
            rw (if_neg (String-discrete id j) n true (is_listed j ids))
              (ap (recovered_if (is_listed j ids)) (get-recover_other j id (get id s.machines) s n))
      ]
    where
      here :
          id ≡ j
          → get j (recover_machine (get id s.machines) id s).0.machines
            ≡ recovered_if true (get j s.machines)
      here e = rw (← e) (get-recover_machine id s)

module _ {B S : Type 0} (cfg : Config B S) where
  pub get-recover_if :
      (order : List String) (s : Server S) (j : String)
      → get j (recover cfg order s).machines ≡ recovered_if (is_listed j order) (get j s.machines)
  unfolding recover persist_if persist
  get-recover_if order s j = kept (recover_all order s).1 ∙ get-recover_all j order s
    where
      kept :
          (b : Bool)
          → get j (persist_if cfg.store b (recover_all order s).0).machines
            ≡ get j (recover_all order s).0.machines
      kept true = refl
      kept false = refl

  pub get-recover_listed :
      (order : List String) (s : Server S) (j : String)
      → is_listed j order ≡ true
      → get j (recover cfg order s).machines ≡ recovered_if true (get j s.machines)
  get-recover_listed order s j h =
      get-recover_if order s j ∙ ap (λ b. recovered_if b (get j s.machines)) h

-- The transition that a crash interrupts, by the state of the machine.
abbrev pub cut_short : State → Option String
cut_short State.creating = some "create"
cut_short State.configuring = some "configure"
cut_short State.draining = some "drain"
cut_short State.deleting = some "delete"
cut_short _ = none

abbrev pub failed_by : Option String → Machine → Machine
failed_by none m = m
failed_by (some name) m = record m {
  state = State.failed;
  last_error = some (Error.interrupted name);
}

abbrev pub after_crash : Option Machine → Option Machine
after_crash none = none
after_crash (some m) = some (failed_by (cut_short m.state) m)

recovered_lem : (m : Machine) → recovered m ≡ failed_by (cut_short m.state) m
unfolding recovered interrupted transitional_kind
recovered_lem m = by_state m.state refl
  where
    by_state : (t : State) → m.state ≡ t → recovered m ≡ failed_by (cut_short m.state) m
    by_state State.unspecified e = rw e refl
    by_state State.speculative e = rw e refl
    by_state State.creating e = rw e refl
    by_state State.idle e = rw e refl
    by_state State.configuring e = rw e refl
    by_state State.configured e = rw e refl
    by_state State.draining e = rw e refl
    by_state State.deleting e = rw e refl
    by_state State.failed e = rw e refl

module _ {B S : Type 0} (cfg : Config B S) where
  -- After a recovery that goes through a machine, the machine is FAILED with an error that names the
  -- transition that was under way, with its other fields as they were, or, if none was under way, as
  -- it was; an unknown id stays unknown.
  pub get-recover :
      (order : List String) (s : Server S) (j : String)
      → is_listed j order ≡ true
      → get j (recover cfg order s).machines ≡ after_crash (get j s.machines)
  get-recover order s j h = get-recover_listed cfg order s j h ∙ same (get j s.machines)
    where
      same : (o : Option Machine) → recovered_if true o ≡ after_crash o
      same none = refl
      same (some m) = ap some (recovered_lem m)

-- A recovered machine is not in a transitional state.
pub recovered-stable : (m : Machine) → is_transitional (recovered m).state ≡ false
unfolding recovered interrupted
recovered-stable m = ground arith

-- A recovery keeps the facts of the substrate.
pub recovered-facts :
    (m : Machine)
    → ((recovered m).capacity_type ≡ m.capacity_type)
      × ((recovered m).interruption_probability ≡ m.interruption_probability)
unfolding recovered interrupted
recovered-facts m = (ground arith, ground arith)
