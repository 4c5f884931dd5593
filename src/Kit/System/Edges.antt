-- ===== src/Kit/System/Edges.antt =====
-- Calls and completions move a machine along the edges of the lifecycle only, and leave what
-- identifies it.
use bigfleet_providers.Prelude.{
  String, String-discrete, true, none, some, List, get, insert, get-insert_eq, get-insert_ne, ok,
  err, ◌≡◌, refl, ap, subst, ◌∙◌, ◌⊎◌, inl, inr, Option-cases,
}
use bigfleet_providers.Kit.Lifecycle.{State, State-discrete, Kind, transitional, can_start}
use bigfleet_providers.Kit.Lifecycle.Edges.{
  Begins, Ends, Fails, begins, ends, fails, can_start-origin,
}
use bigfleet_providers.Kit.Machine.{Machine}
use bigfleet_providers.Kit.Messages.{Request}
use bigfleet_providers.Kit.Store.{Store}
use bigfleet_providers.Kit.Server.{Config, Server, string_key, persist, touch}
use bigfleet_providers.Kit.Operation.{
  Operation, OpResult, kind_of, pre_effect, create_effect, drain_effect, delete_effect,
}
use bigfleet_providers.Kit.Operation.Results.{ResultFits}
use bigfleet_providers.Kit.Dispatch.{Task, Outcome, entered, settle, settled, complete}
use bigfleet_providers.Kit.Dispatch.Completion.{complete_current, complete_stale}
use bigfleet_providers.Kit.Rpc.{call}
use bigfleet_providers.Kit.Rpc.Cases.{machine_of, operation_of}
use bigfleet_providers.Kit.Rpc.Keeps.{Called, call-Called}

-- Along an edge, with the facts of the substrate that no transition changes.
pub record Moved (Edge : State → State → Type 0) (m m' : Machine) : Type 0 where
  pub edge : Edge m.state m'.state
  pub id : m'.id ≡ m.id
  pub instance_type : m'.instance_type ≡ m.instance_type
  pub zone : m'.zone ≡ m.zone
  pub capacity_type : m'.capacity_type ≡ m.capacity_type
  pub price : m'.price_per_hour ≡ m.price_per_hour
  pub probability : m'.interruption_probability ≡ m.interruption_probability
  pub labels : m'.labels ≡ m.labels

-- The edge that a result takes: one for success, another for failure.
abbrev pub Settles : Kind → OpResult → State → State → Type 0
Settles k (err e) = Fails k
Settles k (ok f) = Ends k

-- The machine is still there, as it was, or it is the machine `id` and moved along an edge.
abbrev pub Stays :
    String → (State → State → Type 0) → String → Machine → List (String × Machine) → Type 0
Stays id Edge j m machines =
    (m' : Machine) × (get j machines ≡ some m') × ((m' ≡ m) ⊎ ((id ≡ j) × Moved Edge m m'))

moved :
    (Edge : State → State → Type 0) (m m' : Machine)
    → m' ≡ record m {
      state = m'.state;
      host = m'.host;
      resources = m'.resources;
      allocatable = m'.allocatable;
      cluster = m'.cluster;
      shard_metadata = m'.shard_metadata;
      last_error = m'.last_error;
    }
    → Edge m.state m'.state
    → Moved Edge m m'
moved Edge m m' e g = record {
  edge = g;
  id = ap (λ x. x.id) e;
  instance_type = ap (λ x. x.instance_type) e;
  zone = ap (λ x. x.zone) e;
  capacity_type = ap (λ x. x.capacity_type) e;
  price = ap (λ x. x.price_per_hour) e;
  probability = ap (λ x. x.interruption_probability) e;
  labels = ap (λ x. x.labels) e;
}

pub entered-Moved :
    (op : Operation) (m : Machine)
    → can_start m.state (kind_of op) ≡ true
    → Moved (Begins (kind_of op)) m (entered op m)
unfolding entered pre_effect kind_of
entered-Moved Operation.create m h =
    moved _ m _ refl (begins Kind.create m.state (can_start-origin m.state Kind.create h))
entered-Moved (Operation.configure c b md) m h =
    moved _ m _ refl (begins Kind.configure m.state (can_start-origin m.state Kind.configure h))
entered-Moved (Operation.drain g) m h =
    moved _ m _ refl (begins Kind.drain m.state (can_start-origin m.state Kind.drain h))
entered-Moved Operation.delete m h =
    moved _ m _ refl (begins Kind.delete m.state (can_start-origin m.state Kind.delete h))

pub settle-Moved :
    (op : Operation) (r : OpResult) (m : Machine)
    → ResultFits op r
    → m.state ≡ transitional (kind_of op)
    → Moved (Settles (kind_of op) r) m (settle (kind_of op) r m)
unfolding settle kind_of create_effect drain_effect delete_effect
settle-Moved op (err e) m f h = moved _ m _ refl (fails (kind_of op) m.state h)
settle-Moved Operation.create (ok none) m f h = absurd f
settle-Moved Operation.create (ok (some g)) m (res, host, q) h =
    rw q (moved _ m _ refl (ends Kind.create m.state h))
settle-Moved (Operation.configure c b md) (ok none) m f h =
    moved _ m _ refl (ends Kind.configure m.state h)
settle-Moved (Operation.configure c b md) (ok (some g)) m f h = absurd f
settle-Moved (Operation.drain grace) (ok none) m f h = absurd f
settle-Moved (Operation.drain grace) (ok (some g)) m q h =
    rw q (moved _ m _ refl (ends Kind.drain m.state h))
settle-Moved Operation.delete (ok none) m f h = absurd f
settle-Moved Operation.delete (ok (some g)) m q h =
    rw q (moved _ m _ refl (ends Kind.delete m.state h))

-- Writing a moved record of one machine.
insert-Stays :
    (Edge : State → State → Type 0) (j id : String) (m old new : Machine)
    (machines : List (String × Machine))
    → get j machines ≡ some m
    → get id machines ≡ some old
    → Moved Edge old new
    → Stays id Edge j m (insert id new machines)
insert-Stays Edge j id m old new machines h was g = elim (String-discrete id j) [
  | yes e ↦ (new, get-insert_eq j id new machines e, inr (e, same e))
  | no n ↦ (m, get-insert_ne j id new machines n ∙ h, inl refl)
]
  where
    same : id ≡ j → Moved Edge m new
    same e = subst (λ x. Moved Edge x new) (alike e) g
      where
        alike : id ≡ j → old ≡ m
        alike q = cc (h, was, q)

module _ {B S : Type 0} (cfg : Config B S) where
  Called-Stays :
      (req : Request) (s : Server S) (o : Outcome S) (j : String) (m : Machine)
      → Called cfg req s o
      → get j s.machines ≡ some m
      → Stays (machine_of req) (Begins (kind_of (operation_of req))) j m o.server.machines
  Called-Stays req s o j m (inl t) h = rw t.server (m, h, inl refl)
  Called-Stays req s o j m (inr (fences, step, inl k)) h = rw k.machines (m, h, inl refl)
  Called-Stays req s o j m (inr (fences, step, inr (old, a))) h = rw a.machines (
      insert-Stays _ j (machine_of req) m old _ s.machines h a.was
        (entered-Moved (operation_of req) old a.startable))

  -- A call leaves every machine in the inventory as it was, but for the machine that it names, which
  -- may be at the begin of the transition that the call asks for, with its identity, price,
  -- probability and labels.
  pub call-Stays :
      (req : Request) (s : Server S) (j : String) (m : Machine)
      → get j s.machines ≡ some m
      → Stays
          (machine_of req)
          (Begins (kind_of (operation_of req)))
          j
          m
          (call cfg req s).server.machines
  call-Stays req s j m h = Called-Stays req s (call cfg req s) j m (call-Called cfg req s) h

-- The completion of a transition with a result of its form leaves every machine in the inventory as
-- it was, but for the machine of the transition, which may be at the end of that transition if the
-- result is a success and FAILED out of it if not, with its identity, price, probability and labels.
pub complete-Stays :
    {S : Type 0} (st : Store S) (t : Task) (r : OpResult) (s : Server S) (j : String) (m : Machine)
    → ResultFits t.op r
    → get j s.machines ≡ some m
    → Stays t.id (Settles (kind_of t.op) r) j m (complete st t r s).machines
unfolding complete settled persist touch
complete-Stays st t r s j m f h = elim (Option-cases (get t.id s.machines)) [
  | inl n ↦ rw n (m, h, inl refl)
  | inr (old, was) ↦ elim (State-discrete old.state (transitional (kind_of t.op))) [
    | yes e ↦
        rw (complete_current st t r s old was e)
          (insert-Stays _ j t.id m old _ s.machines h was (settle-Moved t.op r old f e))
    | no n ↦ rw (complete_stale st t r s old was n) (m, h, inl refl)
  ]
]
