-- ===== src/Kit/System/Rested.antt =====
-- Every process comes to rest by the timeouts of its running transitions.
use bigfleet_providers.Prelude.{
  String, String-discrete, All, false, List, [], ◌∷◌, ◌++◌, Option, none, some, get, insert,
  get-insert_eq, get-insert_ne, err, ◌≡◌, refl, sym, subst, ap, ◌∙◌,
}
use bigfleet_providers.Kit.Errors.{Error}
use bigfleet_providers.Kit.Lifecycle.{State, Kind, transitional}
use bigfleet_providers.Kit.Machine.{Machine}
use bigfleet_providers.Kit.Server.{Config, string_key, persist, touch}
use bigfleet_providers.Kit.Server.Durable.{Durable}
use bigfleet_providers.Kit.Operation.{kind_of}
use bigfleet_providers.Kit.Dispatch.{Task, settle}
use bigfleet_providers.Kit.Dispatch.Completion.{complete_current}
use bigfleet_providers.Kit.Startup.{is_transitional}
use bigfleet_providers.Kit.System.{Process, Reach, after_timeout}
use bigfleet_providers.Kit.System.Owners.{Owned-rests}
use bigfleet_providers.Kit.System.Rests.{state_of, state_at}
use bigfleet_providers.Kit.System.Starts.{AtRest}
use bigfleet_providers.Kit.System.Progress.{ProcessOwned, known, after_timeout-Owned, Reach-Owned}

-- The transition that runs for a machine, by its state.
abbrev pub working : State → Option Kind
working State.creating = some Kind.create
working State.configuring = some Kind.configure
working State.draining = some Kind.drain
working State.deleting = some Kind.delete
working _ = none

abbrev pub timed_out_by : Option Kind → Machine → Machine
timed_out_by none m = m
timed_out_by (some k) m = record m { state = State.failed; last_error = some (Error.timed_out k) }

-- What the timeouts make of a machine.
abbrev pub after_timeouts : Option Machine → Option Machine
after_timeouts none = none
after_timeouts (some m) = some (timed_out_by (working m.state) m)

not_working : (s : State) → is_transitional s ≡ false → working s ≡ none
not_working State.unspecified h = refl
not_working State.speculative h = refl
not_working State.creating h = cc
not_working State.idle h = refl
not_working State.configuring h = cc
not_working State.configured h = refl
not_working State.draining h = cc
not_working State.deleting h = cc
not_working State.failed h = refl

rested : (o : Option Machine) → is_transitional (state_of o) ≡ false → o ≡ after_timeouts o
rested none h = refl
rested (some m) h = rw (not_working m.state h) refl

transitional-working : (k : Kind) → working (transitional k) ≡ some k
unfolding transitional
transitional-working Kind.create = refl
transitional-working Kind.configure = refl
transitional-working Kind.drain = refl
transitional-working Kind.delete = refl

-- A machine that its timeout made FAILED is what the timeouts make of it.
timed_out-after_timeouts :
    (k : Kind) (m : Machine)
    → m.state ≡ transitional k
    → after_timeouts (some (settle k (err (Error.timed_out k)) m)) ≡ after_timeouts (some m)
unfolding settle
timed_out-after_timeouts k m e =
    ap (λ o. some (timed_out_by o m)) (sym (ap working e ∙ transitional-working k))

module _ {B S : Type 0} (cfg : Config B S) (durable : Durable cfg.store) where
  timeout-after_timeouts :
      (t : Task) (ts : List Task) (p : Process B S)
      → p.running ≡ t ∷ ts
      → ProcessOwned cfg durable p
      → (j : String)
      → after_timeouts (get j (after_timeout cfg t ts p).server.machines)
        ≡ after_timeouts (get j p.server.machines)
  unfolding after_timeout persist touch
  timeout-after_timeouts t ts p e h j =
      settled (known (kind_of t.op) (get t.id p.server.machines) runs)
    where
      runs : state_at p.server.machines t.id ≡ transitional (kind_of t.op)
      runs =
          (subst (All (λ u. state_at p.server.machines u.id ≡ transitional (kind_of u.op))) e
            h.kinds).0

      settled :
          (m : Machine) × (get t.id p.server.machines ≡ some m)
            × (m.state ≡ transitional (kind_of t.op))
          → after_timeouts (get j (after_timeout cfg t ts p).server.machines)
            ≡ after_timeouts (get j p.server.machines)
      settled (m, was, q) =
          rw (complete_current cfg.store t (err (Error.timed_out (kind_of t.op))) p.server m was q)
            (written (String-discrete t.id j))
        where
          failed : Machine
          failed = settle (kind_of t.op) (err (Error.timed_out (kind_of t.op))) m

          written :
              Dec (t.id ≡ j)
              → after_timeouts (get j (insert t.id failed p.server.machines))
                ≡ after_timeouts (get j p.server.machines)
          written (yes i) = rw (get-insert_eq j t.id failed p.server.machines i) (
              timed_out-after_timeouts (kind_of t.op) m q
              ∙ ap after_timeouts (sym was ∙ ap (λ k. get k p.server.machines) i))
          written (no n) = ap after_timeouts (get-insert_ne j t.id failed p.server.machines n)

  -- Timeouts one after the other, and nothing else: no answer of the backend, call or restart.
  pub data Timeouts : Process B S → Process B S → Type 0 where
    all_fired : {p : Process B S} → Timeouts p p
    then_fires :
        {p r : Process B S} (before : List Task) (t : Task) (after : List Task)
        → p.running ≡ before ++ (t ∷ after)
        → Timeouts (after_timeout cfg t (before ++ after) p) r
        → Timeouts p r

  -- The process that comes of the timeouts, with no transition running and no machine in a
  -- transitional state. The substrate is as it was.
  pub record Rested (p : Process B S) : Type 0 where
    pub final : Process B S
    pub timeouts : Timeouts p final
    pub idle : final.running ≡ []
    pub at_rest : AtRest final.server.machines
    pub machines :
        (j : String) → get j final.server.machines ≡ after_timeouts (get j p.server.machines)
    pub substrate : final.substrate ≡ p.substrate

  rest_from :
      (ts : List Task) (p : Process B S) → p.running ≡ ts → ProcessOwned cfg durable p → Rested p
  unfolding after_timeout
  rest_from [] p e h = record {
    final = p;
    timeouts = all_fired;
    idle = e;
    at_rest = Owned-rests (state_at p.server.machines) (rw (← e) h);
    machines = λ j.
        rested (get j p.server.machines) (Owned-rests (state_at p.server.machines) (rw (← e) h) j);
    substrate = refl;
  }
  rest_from (t ∷ ts) p e h =
      let r =
        rest_from ts (after_timeout cfg t ts p) refl
          (after_timeout-Owned cfg durable [] t ts p e h) in
      record {
        final = r.final;
        timeouts = then_fires [] t ts e r.timeouts;
        idle = r.idle;
        at_rest = r.at_rest;
        machines = λ j. r.machines j ∙ timeout-after_timeouts t ts p e h j;
        substrate = r.substrate;
      }

  -- With a store that keeps what it is given: every process that is reached comes to rest by its
  -- timeouts alone. They lead from it, with no answer of the backend, no call and no restart, to a
  -- process in which no transition runs and no machine is in a transitional state: each machine that
  -- was in one is FAILED with the timeout of its transition, every other machine and the substrate
  -- are as they were.
  pub Reach-Rested : (p : Process B S) → Reach cfg p → Rested p
  Reach-Rested p r = rest_from p.running p refl (Reach-Owned cfg durable p r)
