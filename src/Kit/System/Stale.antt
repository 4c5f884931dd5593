-- ===== src/Kit/System/Stale.antt =====
-- Every step of a process keeps or raises the marks, so a token that is stale stays stale.
use bigfleet_providers.Prelude.{
  String, Bool, true, false, List, [], ◌∷◌, map, Option, none, some, get, Result, ok, err, ◌≡◌,
  refl, sym, ap, ◌∙◌, arith, inl, inr, Bool-cases,
}
use bigfleet_providers.Kit.Errors.{Error, Defect}
use bigfleet_providers.Kit.Fence.{Fence, FenceKey, FenceMark, fence_key}
use bigfleet_providers.Kit.Machine.{Machine}
use bigfleet_providers.Kit.Instance.{Instance, validate}
use bigfleet_providers.Kit.Messages.{Request}
use bigfleet_providers.Kit.Store.{Store}
use bigfleet_providers.Kit.Server.{
  Config, Server, string_key, fence_record, snapshot, persist, persist_if, touch, with_defaults,
}
use bigfleet_providers.Kit.Server.Durable.{Durable}
use bigfleet_providers.Kit.Server.RoundTrip.{stamps, load_snapshot-snapshot}
use bigfleet_providers.Kit.Sound.Inventory.{Fits, Fits-KeyIsId}
use bigfleet_providers.Kit.Operation.{OpResult}
use bigfleet_providers.Kit.Dispatch.{Task, Outcome, complete, settled}
use bigfleet_providers.Kit.Dispatch.Cases.{fence_key_of}
use bigfleet_providers.Kit.Dispatch.Fencing.{IsStale}
use bigfleet_providers.Kit.Rpc.Cases.{machine_of, token_of}
use bigfleet_providers.Kit.Rpc.Keeps.{Called, call-Called}
use bigfleet_providers.Kit.Reconcile.{
  merge, merge_valid, reconcile_one, reconcile_all, reconcile_with, reconcile,
}
use bigfleet_providers.Kit.Startup.{
  is_nil, recover_machine, recover_all, recover, is_fresh, start, new, effective,
}
use bigfleet_providers.Kit.System.{
  Process, Step, Reach, request, finish, expire, late, refresh, drift, restart, next, after_call,
  after_completion, after_timeout, after_late, after_reconcile, after_restart,
}
use bigfleet_providers.Kit.System.Keeps.{Kept, Reach-Kept}
use bigfleet_providers.Kit.System.Progress.{Run, here, then_step}
use bigfleet_providers.Kit.System.Marks.{
  MarkLe, MarkLe-newer, Advances, Advances-same, Advances-trans, FenceStep-Advances,
}

module _ {S : Type 0} where
  persist_if-fences :
      (st : Store S) (b : Bool) (s : Server S) → (persist_if st b s).fences ≡ s.fences
  unfolding persist_if persist
  persist_if-fences st true s = refl
  persist_if-fences st false s = refl

  settled-fences :
      (st : Store S) (t : Task) (r : OpResult) (o : Option Machine) (s : Server S)
      → (settled st o t r s).fences ≡ s.fences
  unfolding settled persist touch
  settled-fences st t r none s = refl
  settled-fences st t r (some m) s = ground arith

  merge_valid-fences :
      (o : Option Defect) (i : Instance) (s : Server S) → (merge_valid o i s).0.fences ≡ s.fences
  unfolding merge_valid merge touch
  merge_valid-fences (some d) i s = refl
  merge_valid-fences none i s = merged (get i.id s.machines)
    where
      merged : (o : Option Machine) → (merge o i s).0.fences ≡ s.fences
      merged none = refl
      merged (some cur) = ground arith

  reconcile_all-fences :
      (rz : Bool) (is : List Instance) (s : Server S) → (reconcile_all rz is s).0.fences ≡ s.fences
  unfolding reconcile_all reconcile_one
  reconcile_all-fences rz [] s = refl
  reconcile_all-fences rz (i ∷ is) s =
      reconcile_all-fences rz is (reconcile_one rz i s).0 ∙ merge_valid-fences (validate rz i) i s

  recover_all-fences :
      (order : List String) (s : Server S) → (recover_all order s).0.fences ≡ s.fences
  unfolding recover_all recover_machine touch
  recover_all-fences [] s = refl
  recover_all-fences (id ∷ ids) s =
      recover_all-fences ids (recover_machine (get id s.machines) id s).0
      ∙ recovered (get id s.machines)
    where
      recovered : (o : Option Machine) → (recover_machine o id s).0.fences ≡ s.fences
      recovered none = refl
      recovered (some m) = ground arith

module _ {B S : Type 0} (cfg : Config B S) where
  Called-Advances :
      (req : Request) (s : Server S) (o : Outcome S)
      → Called cfg req s o
      → Advances s.fences o.server.fences
  Called-Advances req s o (inl t) = Advances-same s.fences _ (ap (λ x. x.fences) t.server)
  Called-Advances req s o (inr (fences, step, inl k)) =
      rw k.fences (FenceStep-Advances (machine_of req) (token_of req) s fences step)
  Called-Advances req s o (inr (fences, step, inr (m, a))) =
      rw a.fences (FenceStep-Advances (machine_of req) (token_of req) s fences step)

  complete-Advances :
      (t : Task) (r : OpResult) (s : Server S) → Advances s.fences (complete cfg.store t r s).fences
  unfolding complete
  complete-Advances t r s =
      Advances-same s.fences _ (settled-fences cfg.store t r (get t.id s.machines) s)

  reconcile-Advances : (b : B) (s : Server S) → Advances s.fences (reconcile cfg b s).1.fences
  unfolding reconcile reconcile_with
  reconcile-Advances b s = described (cfg.backend.describe b)
    where
      described :
          (r : Result Error (List Instance)) → Advances s.fences (reconcile_with cfg r s).1.fences
      described (err e) = Advances-same s.fences s.fences refl
      described (ok is) = Advances-same s.fences _ (
          persist_if-fences cfg.store (reconcile_all cfg.opts.require_zone is s).1
            (reconcile_all cfg.opts.require_zone is s).0
          ∙ reconcile_all-fences cfg.opts.require_zone is s)

  recover-Advances :
      (order : List String) (s : Server S) → Advances s.fences (recover cfg order s).fences
  unfolding recover
  recover-Advances order s = Advances-same s.fences _ (
      persist_if-fences cfg.store (recover_all order s).1 (recover_all order s).0
      ∙ recover_all-fences order s)

  -- A snapshot that counts as fresh has no marks.
  fresh-Advances : (s t : Server S) → is_fresh (snapshot s) ≡ true → Advances s.fences t.fences
  unfolding is_fresh snapshot get
  fresh-Advances s t h = unmarked s.fences (no_marks h)
    where
      none_marked :
          (k : FenceKey) (a : FenceMark)
          → Path (Option FenceMark) none (some a)
          → (b : FenceMark) × (get k t.fences ≡ some b) × MarkLe a b
      none_marked k a g = cc

      nonempty : false ≡ true → ⊥
      nonempty e = cc

      no_marks : is_fresh (snapshot s) ≡ true → is_nil (map fence_record s.fences) ≡ true
      no_marks h = ground arith

      unmarked :
          (fs : List (FenceKey × FenceMark))
          → is_nil (map fence_record fs) ≡ true
          → Advances fs t.fences
      unmarked [] e = λ k a g. none_marked k a g
      unmarked (f ∷ fs) e = λ k a g. absurd (nonempty e)

  restart-Advances :
      (order : List String) (b : B) (x : S) (s t : Server S)
      → Fits cfg.opts.require_zone s
      → cfg.store.load x ≡ ok (snapshot s)
      → start cfg (cfg.store.load x) order b x ≡ ok t
      → Advances s.fences t.fences
  unfolding start
  restart-Advances order b x s t f l h = elim (Bool-cases (is_fresh (snapshot s))) [
    | inl y ↦ fresh-Advances s t y
    | inr n ↦
        rw (← loaded n)
          (recover-Advances order (record s { last_mod = stamps s.rev s.machines; store = x }))
  ]
    where
      same : (y z : Server S) → Path (Result Error (Server S)) (ok y) (ok z) → y ≡ z
      same y z e = cc

      recovered :
          is_fresh (snapshot s) ≡ false
          → start cfg (cfg.store.load x) order b x
            ≡ ok (recover cfg order (record s { last_mod = stamps s.rev s.machines; store = x }))
      recovered n =
          rw (l, n, load_snapshot-snapshot s x (Fits-KeyIsId f) f.machines f.fences f.ops) refl

      loaded :
          is_fresh (snapshot s) ≡ false
          → recover cfg order (record s { last_mod = stamps s.rev s.machines; store = x }) ≡ t
      loaded n = same _ _ (sym (recovered n) ∙ h)

module _ {B S : Type 0} (cfg : Config B S) (durable : Durable cfg.store) where
  Step-Advances :
      (p q : Process B S)
      → Step cfg p q
      → Kept cfg durable p
      → Advances p.server.fences q.server.fences
  unfolding after_call after_completion after_timeout after_late after_reconcile after_restart new
      with_defaults
  Step-Advances p _ (request req) k =
      Called-Advances (effective cfg) req p.server _ (call-Called (effective cfg) req p.server)
  Step-Advances p _ (finish before t after h) k = complete-Advances cfg t _ p.server
  Step-Advances p _ (expire before t after h) k = complete-Advances cfg t _ p.server
  Step-Advances p _ (late before t after h) k = Advances-same p.server.fences p.server.fences refl
  Step-Advances p _ refresh k = reconcile-Advances (effective cfg) p.substrate p.server
  Step-Advances p _ (drift b) k = Advances-same p.server.fences p.server.fences refl
  Step-Advances p _ (restart order s h c) k =
      restart-Advances (effective cfg) order p.substrate p.server.store p.server s k.fits k.synced h

  Run-Advances :
      (p q : Process B S)
      → Run cfg durable p q
      → Reach cfg p
      → Advances p.server.fences q.server.fences
  Run-Advances p _ here r = Advances-same p.server.fences p.server.fences refl
  Run-Advances p q (then_step {q = m} step run) r =
      Advances-trans p.server.fences m.server.fences q.server.fences
        (Step-Advances p m step (Reach-Kept cfg durable p r)) (Run-Advances m q run (next r step))

  -- With a store that keeps what it is given: a token that is stale for a machine in a process that
  -- is reached stays stale for it, whatever calls, completions, timeouts, reconciliations, changes
  -- of the substrate and restarts come after.
  pub Run-IsStale :
      (id : String) (f : Fence) (p q : Process B S)
      → Reach cfg p
      → Run cfg durable p q
      → IsStale id f p.server
      → IsStale id f q.server
  Run-IsStale id f p q r run h =
      let (mark, known, above) = Run-Advances p q run r (fence_key_of id f) h.mark h.known in
      record {
        set = h.set;
        mark = mark;
        known = known;
        old = MarkLe-newer h.mark mark f above h.old;
      }
