-- ===== src/Kit/System/Rests.antt =====
-- What the parts of a process do to the transitional states of the machines.
use bigfleet_providers.Prelude.{
  String, String-discrete, Bool, true, false, List, [], ◌∷◌, Option, none, some, get, insert,
  get-insert_eq, get-insert_ne, ok, err, ◌≡◌, ◌≢◌, refl, sym, ap, ◌∙◌, ◌⊎◌, inl, inr, Bool-cases,
}
use bigfleet_providers.Kit.Errors.{Defect}
use bigfleet_providers.Kit.Lifecycle.{State, Kind, can_start, stable}
use bigfleet_providers.Kit.Lifecycle.Edges.{origin, can_start-origin}
use bigfleet_providers.Kit.Machine.{Machine}
use bigfleet_providers.Kit.Instance.{Instance, validate, effective_state, to_machine}
use bigfleet_providers.Kit.Instance.Shape.{RestFits, validate-InShape}
use bigfleet_providers.Kit.Server.{Server, string_key, touch}
use bigfleet_providers.Kit.Operation.{
  Operation, OpResult, kind_of, create_effect, drain_effect, delete_effect,
}
use bigfleet_providers.Kit.Operation.Results.{ResultFits}
use bigfleet_providers.Kit.Dispatch.{settle}
use bigfleet_providers.Kit.Reconcile.Refresh.{refreshed, refresh_substrate_lem}
use bigfleet_providers.Kit.Reconcile.{
  refresh_substrate, merge, merge_valid, reconcile_one, reconcile_all,
}
use bigfleet_providers.Kit.Startup.{is_transitional, new}

-- The state of a machine; of an unknown one, the zero value.
abbrev pub state_of : Option Machine → State
state_of none = State.unspecified
state_of (some m) = m.state

abbrev pub state_at : List (String × Machine) → String → State
state_at machines j = state_of (get j machines)

pub state_at-insert_eq :
    (j id : String) (m : Machine) (machines : List (String × Machine))
    → id ≡ j
    → state_at (insert id m machines) j ≡ m.state
state_at-insert_eq j id m machines e = ap state_of (get-insert_eq j id m machines e)

pub state_at-insert_ne :
    (j id : String) (m : Machine) (machines : List (String × Machine))
    → id ≢ j
    → state_at (insert id m machines) j ≡ state_at machines j
state_at-insert_ne j id m machines n = ap state_of (get-insert_ne j id m machines n)

-- A kind starts from a state that is not transitional.
pub startable-rests : (s : State) (k : Kind) → can_start s k ≡ true → is_transitional s ≡ false
startable-rests s k h = rw (can_start-origin s k h) (origin_rests k)
  where
    origin_rests : (k : Kind) → is_transitional (origin k) ≡ false
    origin_rests Kind.create = refl
    origin_rests Kind.configure = refl
    origin_rests Kind.drain = refl
    origin_rests Kind.delete = refl

stable-rests : (k : Kind) → is_transitional (stable k) ≡ false
unfolding stable
stable-rests Kind.create = refl
stable-rests Kind.configure = refl
stable-rests Kind.drain = refl
stable-rests Kind.delete = refl

-- A settled machine is at rest.
pub settle-rests :
    (op : Operation) (r : OpResult) (m : Machine)
    → ResultFits op r
    → is_transitional (settle (kind_of op) r m).state ≡ false
unfolding settle kind_of stable create_effect drain_effect delete_effect
settle-rests op (err e) m f = refl
settle-rests Operation.create (ok none) m f = absurd f
settle-rests Operation.create (ok (some g)) m (res, host, q) = rw q refl
settle-rests (Operation.configure c b md) (ok none) m f = refl
settle-rests (Operation.configure c b md) (ok (some g)) m f = absurd f
settle-rests (Operation.drain grace) (ok none) m f = absurd f
settle-rests (Operation.drain grace) (ok (some g)) m q = rw q refl
settle-rests Operation.delete (ok none) m f = absurd f
settle-rests Operation.delete (ok (some g)) m q = rw q refl

RestFits-rests : (s : State) (i : Instance) → RestFits s i.host → is_transitional s ≡ false
RestFits-rests State.speculative i h = refl
RestFits-rests State.idle i h = refl
RestFits-rests State.unspecified i h = refl
RestFits-rests State.configured i h = refl
RestFits-rests State.failed i h = refl
RestFits-rests State.creating i h = absurd h
RestFits-rests State.configuring i h = absurd h
RestFits-rests State.draining i h = absurd h
RestFits-rests State.deleting i h = absurd h

-- The record of a valid instance is at rest.
pub to_machine-rests :
    (rz : Bool) (i : Instance) → validate rz i ≡ none → is_transitional (to_machine i).state ≡ false
unfolding to_machine
to_machine-rests rz i h = RestFits-rests (effective_state i) i ((validate-InShape rz i).0 h).rest

-- No machine comes to or leaves a transitional state.
abbrev pub SameRests : List (String × Machine) → List (String × Machine) → Type 0
SameRests old new =
    (j : String)
    → (state_at new j ≡ state_at old j)
      ⊎ ((is_transitional (state_at old j) ≡ false) × (is_transitional (state_at new j) ≡ false))

SameRests-trans : (a b c : List (String × Machine)) → SameRests a b → SameRests b c → SameRests a c
SameRests-trans a b c h k j = chain (h j) (k j)
  where
    chain :
        (state_at b j ≡ state_at a j)
          ⊎ ((is_transitional (state_at a j) ≡ false) × (is_transitional (state_at b j) ≡ false))
        → (state_at c j ≡ state_at b j)
          ⊎ ((is_transitional (state_at b j) ≡ false) × (is_transitional (state_at c j) ≡ false))
        → (state_at c j ≡ state_at a j)
          ⊎ ((is_transitional (state_at a j) ≡ false) × (is_transitional (state_at c j) ≡ false))
    chain (inl e) (inl f) = inl (f ∙ e)
    chain (inl e) (inr (p, q)) = inr (ap is_transitional (sym e) ∙ p, q)
    chain (inr (p, q)) (inl f) = inr (p, ap is_transitional f ∙ q)
    chain (inr (p, q)) (inr (r, t)) = inr (p, t)

-- A record of which the state is kept, or that is new and at rest.
pub insert-SameRests :
    (o : Option Machine) (id : String) (m : Machine) (machines : List (String × Machine))
    → get id machines ≡ o
    → (m.state ≡ state_of o) ⊎ ((o ≡ none) × (is_transitional m.state ≡ false))
    → SameRests machines (insert id m machines)
insert-SameRests o id m machines h k j = elim (String-discrete id j) [
  | yes e ↦ here e k
  | no n ↦ inl (state_at-insert_ne j id m machines n)
]
  where
    before : id ≡ j → state_at machines j ≡ state_of o
    before e = rw (← e) (ap state_of h)

    after : id ≡ j → state_at (insert id m machines) j ≡ m.state
    after e = state_at-insert_eq j id m machines e

    here :
        id ≡ j
        → (m.state ≡ state_of o) ⊎ ((o ≡ none) × (is_transitional m.state ≡ false))
        → (state_at (insert id m machines) j ≡ state_at machines j)
          ⊎ ((is_transitional (state_at machines j) ≡ false)
              × (is_transitional (state_at (insert id m machines) j) ≡ false))
    here e (inl q) = inl (after e ∙ q ∙ sym (before e))
    here e (inr (q, r)) =
        inr (ap is_transitional (before e ∙ ap state_of q), ap is_transitional (after e) ∙ r)

module _ {S : Type 0} (rz : Bool) where
  merge-SameRests :
      (o : Option Machine) (i : Instance) (s : Server S)
      → validate rz i ≡ none
      → get i.id s.machines ≡ o
      → SameRests s.machines (merge o i s).0.machines
  unfolding merge touch refreshed
  merge-SameRests none i s v h =
      insert-SameRests none i.id (to_machine i) s.machines h (inr (refl, to_machine-rests rz i v))
  merge-SameRests (some cur) i s v h = elim (Bool-cases (refresh_substrate cur i).1) [
    | inl y ↦ rw y same
    | inr n ↦ rw n same
  ]
    where
      same : SameRests s.machines (insert i.id (refresh_substrate cur i).0 s.machines)
      same =
          rw (refresh_substrate_lem cur i)
            (insert-SameRests (some cur) i.id (refreshed cur i) s.machines h (inl refl))

  merge_valid-SameRests :
      (o : Option Defect) (i : Instance) (s : Server S)
      → validate rz i ≡ o
      → SameRests s.machines (merge_valid o i s).0.machines
  unfolding merge_valid
  merge_valid-SameRests none i s v = merge-SameRests _ i s v refl
  merge_valid-SameRests (some d) i s v = λ j. inl refl

  pub reconcile_all-SameRests :
      (is : List Instance) (s : Server S) → SameRests s.machines (reconcile_all rz is s).0.machines
  unfolding reconcile_all reconcile_one
  reconcile_all-SameRests [] s = λ j. inl refl
  reconcile_all-SameRests (i ∷ is) s =
      SameRests-trans s.machines (reconcile_one rz i s).0.machines _
        (merge_valid-SameRests (validate rz i) i s refl)
        (reconcile_all-SameRests is (reconcile_one rz i s).0)
