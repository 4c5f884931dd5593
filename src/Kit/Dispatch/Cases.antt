-- ===== src/Kit/Dispatch/Cases.antt =====
-- `dispatch` either refuses or answers again, and then leaves all but the marks and the store as it
-- was, or it accepts.
use bigfleet_providers.Prelude.{
  sym, ◌∙◌, String, ℤ, inc, Bool, true, List, Option, none, some, get, insert, Result, ok, err, ◌≡◌,
  refl, arith, ◌⊎◌, inl, inr, Bool-cases,
}
use bigfleet_providers.Kit.Lifecycle.{can_start}
use bigfleet_providers.Kit.Fence.{Fence, FenceKey, FenceMark, fence_key, is_zero, newer}
use bigfleet_providers.Kit.Errors.{Error}
use bigfleet_providers.Kit.Machine.{Machine, clone}
use bigfleet_providers.Kit.Store.{Store}
use bigfleet_providers.Kit.Server.{
  Server, op_key, string_key, check_fence, check_mark, persist, persist_if, touch, mint_op,
  op_id_text,
}
use bigfleet_providers.Kit.Operation.{Operation, kind_of}
use bigfleet_providers.Kit.Dispatch.{
  Outcome, is_underway, dispatch, entered, op_key_of, refuse, retry, accept, position, idempotency,
  found, fence_passed,
}

-- All but the marks and the store is as it was.
pub record Kept {S : Type 0} (s : Server S) (o : Outcome S) : Type 0 where
  pub machines : o.server.machines ≡ s.machines
  pub ops : o.server.ops ≡ s.ops
  pub fences : o.server.fences ≡ s.fences
  pub last_mod : o.server.last_mod ≡ s.last_mod
  pub rev : o.server.rev ≡ s.rev
  pub next_op : o.server.next_op ≡ s.next_op
  pub task : o.task ≡ none

-- The transition of the record `m` of the machine `id` was accepted.
pub record Accepted {S : Type 0} (prefix id : String) (timeout : ℤ) (op : Operation) (m : Machine)
    (s : Server S) (o : Outcome S) : Type 0 where
  pub was : get id s.machines ≡ some m
  pub startable : can_start m.state (kind_of op) ≡ true
  pub op_id : String
  pub minted : op_id ≡ op_id_text prefix (inc s.next_op)
  pub machines : o.server.machines ≡ insert id (entered op m) s.machines
  pub ops : o.server.ops ≡ insert (op_key_of id (kind_of op)) op_id s.ops
  pub fences : o.server.fences ≡ s.fences
  pub last_mod : o.server.last_mod ≡ insert id (inc s.rev) s.last_mod
  pub rev : o.server.rev ≡ inc s.rev
  pub next_op : o.server.next_op ≡ inc s.next_op
  pub task :
      o.task
      ≡ some (record {
        id = id;
        timeout = timeout;
        op = op;
        snapshot = clone (entered op m);
        op_id = op_id;
      })

-- The key under which the token of a call for a machine is judged.
abbrev pub fence_key_of : String → Fence → FenceKey
fence_key_of id f = record { shard_id = f.shard_id; machine_id = id }

-- The mark that a token leaves.
abbrev pub mark_of : Fence → FenceMark
mark_of f = record { epoch = f.shard_epoch; sequence = f.sequence_number }

-- The marks stay, or the token passed them and is the mark of its key.
abbrev pub FenceStep :
    {S : Type 0} → String → Fence → Server S → List (FenceKey × FenceMark) → Type 0
FenceStep id f s fences =
    (fences ≡ s.fences)
    ⊎ ((fences ≡ insert (fence_key_of id f) (mark_of f) s.fences)
        × ((mark : FenceMark) → get (fence_key_of id f) s.fences ≡ some mark → newer mark f ≡ true))

-- The fence changes no field but the marks.
abbrev pub OnlyMarks :
    {S : Type 0} → String → Fence → Server S → Result Error (Bool × Server S) → Type 0
OnlyMarks id f s (err e) = Unit
OnlyMarks id f s (ok (advanced, s')) =
    (fences : List (FenceKey × FenceMark)) × FenceStep id f s fences
    × (s' ≡ record s { fences = fences })

module _ {S : Type 0} (id : String) (f : Fence) (s : Server S) where
  check_mark-OnlyMarks :
      (o : Option FenceMark)
      → get (fence_key_of id f) s.fences ≡ o
      → OnlyMarks id f s (check_mark o id f s)
  unfolding check_mark
  check_mark-OnlyMarks none h = (_, inr (refl, λ mark g. cc), refl)
  check_mark-OnlyMarks (some mark) h = elim (Bool-cases (newer mark f)) [
    | inl y ↦ rw y (_, inr (refl, λ other g. passed other (sym h ∙ g) y), refl)
    | inr n ↦ rw n tt
  ]
    where
      passed :
          (other : FenceMark) → some mark ≡ some other → newer mark f ≡ true → newer other f ≡ true
      passed other e y = cc

  pub check_fence-OnlyMarks : OnlyMarks id f s (check_fence id f s)
  unfolding check_fence
  check_fence-OnlyMarks = elim (Bool-cases (is_zero f)) [
    | inl z ↦ rw z (s.fences, inl refl, refl)
    | inr n ↦ rw n (check_mark-OnlyMarks _ refl)
  ]

module _ {S : Type 0} (st : Store S) (prefix id : String) (timeout : ℤ) (op : Operation) where
  abbrev pub Cases : Server S → Outcome S → Type 0
  Cases s o = Kept s o ⊎ ((m : Machine) × Accepted prefix id timeout op m s o)

  refuse-Kept : (e : Error) (advanced : Bool) (s : Server S) → Kept s (refuse st e advanced s)
  unfolding refuse persist_if persist
  refuse-Kept e advanced s = ground arith

  retry-Kept :
      (op_id : String) (advanced : Bool) (m : Machine) (s : Server S)
      → Kept s (retry st op_id advanced m s)
  unfolding retry persist_if persist
  retry-Kept op_id advanced m s = ground arith

  position-Cases :
      (advanced : Bool) (m : Machine) (s : Server S)
      → get id s.machines ≡ some m
      → Cases s (position st prefix id timeout op advanced m s)
  unfolding position accept persist touch mint_op
  position-Cases advanced m s h = elim (Bool-cases (can_start m.state (kind_of op))) [
    | inl y ↦ rw y (
        inr (
          m,
          record {
            was = h;
            startable = y;
            op_id = op_id_text prefix (inc s.next_op);
            minted = refl;
            machines = refl;
            ops = refl;
            fences = refl;
            last_mod = refl;
            rev = refl;
            next_op = refl;
            task = refl;
          },
        ))
    | inr n ↦ rw n (inl (refuse-Kept _ advanced s))
  ]

  idempotency-Cases :
      (o : Option String) (advanced : Bool) (m : Machine) (s : Server S)
      → get id s.machines ≡ some m
      → Cases s (idempotency st o prefix id timeout op advanced m s)
  unfolding idempotency
  idempotency-Cases none advanced m s h = position-Cases advanced m s h
  idempotency-Cases (some op_id) advanced m s h =
      elim (Bool-cases (is_underway (kind_of op) m.state)) [
        | inl y ↦ rw y (inl (retry-Kept op_id advanced m s))
        | inr n ↦ rw n (position-Cases advanced m s h)
      ]

  pub found-Cases :
      (o : Option Machine) (advanced : Bool) (s : Server S)
      → get id s.machines ≡ o
      → Cases s (found st o prefix id timeout op advanced s)
  unfolding found
  found-Cases none advanced s h = inl (refuse-Kept _ advanced s)
  found-Cases (some m) advanced s h =
      idempotency-Cases (get (op_key_of id (kind_of op)) s.ops) advanced m s h

  -- The marks that a call leaves, and what it does beside.
  abbrev pub Dispatched : Fence → Server S → Outcome S → Type 0
  Dispatched f s o =
      (fences : List (FenceKey × FenceMark)) × FenceStep id f s fences
      × Cases (record s { fences = fences }) o

  fence_passed-Dispatched :
      (r : Result Error (Bool × Server S)) (f : Fence) (s : Server S)
      → OnlyMarks id f s r
      → Dispatched f s (fence_passed st r prefix id timeout op s)
  unfolding fence_passed
  fence_passed-Dispatched (err e) f s h = (
    s.fences,
    inl refl,
    inl (record {
      machines = refl;
      ops = refl;
      fences = refl;
      last_mod = refl;
      rev = refl;
      next_op = refl;
      task = refl;
    }),
  )
  fence_passed-Dispatched (ok (advanced, s')) f s (fences, step, e) =
      (fences, step, rw e (found-Cases _ advanced (record s { fences = fences }) refl))

  -- A call judges its token, and then is refused, answered again, or accepted.
  pub dispatch-Dispatched :
      (f : Fence) (s : Server S) → Dispatched f s (dispatch st prefix id f timeout op s)
  unfolding dispatch
  dispatch-Dispatched f s =
      fence_passed-Dispatched (check_fence id f s) f s (check_fence-OnlyMarks id f s)
