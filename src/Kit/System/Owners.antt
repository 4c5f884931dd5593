-- ===== src/Kit/System/Owners.antt =====
-- Which transitions own which machines: the states of the machines, against the tasks of the
-- goroutines that run.
use bigfleet_providers.Prelude.{
  ℕ, ◌+◌, String, String-discrete, Bool, true, false, List, [], ◌∷◌, ◌++◌, All, ◌≡◌, ◌≢◌, refl, sym,
  ap, ◌∙◌, arith, ◌⊎◌, inl, inr, ite, if_pos, if_neg, if◌then◌else◌,
}
use bigfleet_providers.Kit.Lifecycle.{State, Kind, transitional}
use bigfleet_providers.Kit.Operation.{kind_of}
use bigfleet_providers.Kit.Dispatch.{Task}
use bigfleet_providers.Kit.Startup.{is_transitional}

-- How many of the tasks are for the machine.
unfoldable pub owners : String → List Task → ℕ
owners j [] = 0
owners j (t ∷ ts) = ite (String-discrete t.id j) 1 0 + owners j ts

abbrev pub one_if : Bool → ℕ
one_if b = if b then 1 else 0

-- A machine in a transitional state has one task, which is of that state's kind, and any other has
-- none.
pub record Owned (state_at : String → State) (ts : List Task) : Type 0 where
  pub counts : (j : String) → owners j ts ≡ one_if (is_transitional (state_at j))
  pub kinds : All (λ t. state_at t.id ≡ transitional (kind_of t.op)) ts

pub transitional-is_transitional : (k : Kind) → is_transitional (transitional k) ≡ true
unfolding transitional
transitional-is_transitional Kind.create = refl
transitional-is_transitional Kind.configure = refl
transitional-is_transitional Kind.drain = refl
transitional-is_transitional Kind.delete = refl

All-map :
    {A : Type 0} {P Q : A → Type 0} (xs : List A) → ((x : A) → P x → Q x) → All P xs → All Q xs
All-map [] f h = tt
All-map (x ∷ xs) f h = (f x h.0, All-map xs f h.1)

All-zip :
    {A : Type 0} {P Q R : A → Type 0} (xs : List A)
    → ((x : A) → P x → Q x → R x)
    → All P xs
    → All Q xs
    → All R xs
All-zip [] f h k = tt
All-zip (x ∷ xs) f h k = (f x h.0 k.0, All-zip xs f h.1 k.1)

All-drop_middle :
    {A : Type 0} (P : A → Type 0) (xs : List A) (y : A) (ys : List A)
    → All P (xs ++ y ∷ ys)
    → All P (xs ++ ys)
All-drop_middle P [] y ys h = h.1
All-drop_middle P (x ∷ xs) y ys h = (h.0, All-drop_middle P xs y ys h.1)

pub All-middle :
    {A : Type 0} (P : A → Type 0) (xs : List A) (y : A) (ys : List A) → All P (xs ++ y ∷ ys) → P y
All-middle P [] y ys h = h.0
All-middle P (x ∷ xs) y ys h = All-middle P xs y ys h.1

owners-middle :
    (j : String) (before : List Task) (t : Task) (after : List Task)
    → owners j (before ++ t ∷ after) ≡ ite (String-discrete t.id j) 1 0 + owners j (before ++ after)
unfolding owners
owners-middle j [] t after = refl
owners-middle j (u ∷ before) t after = omega (arith, owners-middle j before t after)

one_less : {d n k : ℕ} → d ≡ 1 → d + n ≡ k → k ≡ 1 → n ≡ 0
one_less a b c = omega arith

none_less : {d n k : ℕ} → d ≡ 0 → d + n ≡ k → n ≡ k
none_less a b = omega arith

one_none : {n : ℕ} → n ≡ 0 → 1 + n ≡ 1
one_none a = omega arith

one_more : {d : ℕ} (n : ℕ) → d ≡ 1 → d + n ≡ 0 → ⊥
one_more n a b = omega arith

-- No owner: the task of none is for it.
owners_zero : (j : String) (ts : List Task) → owners j ts ≡ 0 → All (λ t. t.id ≢ j) ts
unfolding owners
owners_zero j [] h = tt
owners_zero j (t ∷ ts) h = elim (String-discrete t.id j) [
  | yes e ↦ absurd (one_more (owners j ts) (if_pos (String-discrete t.id j) e 1 0) h)
  | no n ↦ (n, owners_zero j ts (none_less (if_neg (String-discrete t.id j) n 1 0) h))
]

module _ {old new : String → State} {ts : List Task} (o : Owned old ts) where
  -- No machine comes to or leaves a transitional state.
  pub Owned-same :
      ((j : String)
        → (new j ≡ old j) ⊎ ((is_transitional (old j) ≡ false) × (is_transitional (new j) ≡ false)))
      → Owned new ts
  Owned-same h = record {
    counts = λ j. o.counts j ∙ ap one_if (same j (h j));
    kinds = All-map ts (λ t e. kept t e (h t.id)) o.kinds;
  }
    where
      same :
          (j : String)
          → (new j ≡ old j)
            ⊎ ((is_transitional (old j) ≡ false) × (is_transitional (new j) ≡ false))
          → is_transitional (old j) ≡ is_transitional (new j)
      same j (inl e) = ap is_transitional (sym e)
      same j (inr (a, b)) = a ∙ sym b

      kept :
          (t : Task)
          → old t.id ≡ transitional (kind_of t.op)
          → (new t.id ≡ old t.id)
            ⊎ ((is_transitional (old t.id) ≡ false) × (is_transitional (new t.id) ≡ false))
          → new t.id ≡ transitional (kind_of t.op)
      kept t e (inl q) = q ∙ e
      kept t e (inr (a, b)) = cc (transitional-is_transitional (kind_of t.op), e, a)

  -- A machine enters the state of a new task.
  pub Owned-begin :
      (t : Task)
      → is_transitional (old t.id) ≡ false
      → new t.id ≡ transitional (kind_of t.op)
      → ((j : String) → t.id ≢ j → new j ≡ old j)
      → Owned new (t ∷ ts)
  unfolding owners
  Owned-begin t rest begun others = record {
    counts = counted;
    kinds = (
      begun,
      All-zip ts (λ u e n. others u.id (λ q. n (sym q)) ∙ e) o.kinds
          (owners_zero t.id ts (none_yet (o.counts t.id))),
    );
  }
    where
      none_yet : owners t.id ts ≡ one_if (is_transitional (old t.id)) → owners t.id ts ≡ 0
      none_yet e = e ∙ ap one_if rest

      taken : is_transitional (new t.id) ≡ true
      taken = ap is_transitional begun ∙ transitional-is_transitional (kind_of t.op)

      owners_here : {j : String} → t.id ≡ j → owners j ts ≡ 0
      owners_here e = rw (← e) (none_yet (o.counts t.id))

      taken_here : {j : String} → t.id ≡ j → is_transitional (new j) ≡ true
      taken_here e = rw (← e) taken

      counted : (j : String) → owners j (t ∷ ts) ≡ one_if (is_transitional (new j))
      counted j = elim (String-discrete t.id j) [
        | yes e ↦
            rw (if_pos {C = ℕ} (String-discrete t.id j) e 1 0)
              (one_none (owners_here e) ∙ sym (ap one_if (taken_here e)))
        | no n ↦
            rw (if_neg {C = ℕ} (String-discrete t.id j) n 1 0)
              (omega arith ∙ o.counts j ∙ ap (λ x. one_if (is_transitional x)) (sym (others j n)))
      ]

-- The machine of a task comes to rest.
pub Owned-end :
    {old new : String → State} (before : List Task) (t : Task) (after : List Task)
    → Owned old (before ++ t ∷ after)
    → is_transitional (new t.id) ≡ false
    → ((j : String) → t.id ≢ j → new j ≡ old j)
    → Owned new (before ++ after)
unfolding owners
Owned-end {old = old} {new = new} before t after o rest others = record {
  counts = counted;
  kinds =
      All-zip (before ++ after) (λ u e n. others u.id (λ q. n (sym q)) ∙ e)
        (All-drop_middle _ before t after o.kinds)
        (owners_zero t.id (before ++ after) (released t.id refl));
}
  where
    began : is_transitional (old t.id) ≡ true
    began =
        ap is_transitional (All-middle _ before t after o.kinds)
        ∙ transitional-is_transitional (kind_of t.op)

    split :
        (j : String)
        → ite (String-discrete t.id j) 1 0 + owners j (before ++ after)
          ≡ one_if (is_transitional (old j))
    split j = sym (owners-middle j before t after) ∙ o.counts j

    released : (j : String) → t.id ≡ j → owners j (before ++ after) ≡ 0
    released j e =
        one_less (if_pos (String-discrete t.id j) e 1 0) (split j) (rw (← e) (ap one_if began))

    counted : (j : String) → owners j (before ++ after) ≡ one_if (is_transitional (new j))
    counted j = elim (String-discrete t.id j) [
      | yes e ↦ released j e ∙ rw (← e) (sym (ap one_if rest))
      | no n ↦
          none_less (if_neg (String-discrete t.id j) n 1 0) (split j)
          ∙ ap (λ x. one_if (is_transitional x)) (sym (others j n))
    ]

pub Owned-none :
    (state_at : String → State)
    → ((j : String) → is_transitional (state_at j) ≡ false)
    → Owned state_at []
unfolding owners
Owned-none state_at h = record { counts = λ j. rw (h j) refl; kinds = tt }

unowned : (b : Bool) → 0 ≡ one_if b → b ≡ false
unowned true e = absurd (omega arith)
unowned false e = refl

-- Where no transition runs, no machine is in a transitional state.
pub Owned-rests :
    (state_at : String → State)
    → Owned state_at []
    → (j : String) → is_transitional (state_at j) ≡ false
unfolding owners
Owned-rests state_at o j = unowned (is_transitional (state_at j)) (o.counts j)
