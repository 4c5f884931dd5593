-- ===== src/Kit/Startup/Seeding.antt =====
-- When the seeding of a fresh store succeeds: exactly if every reported instance is in shape and no
-- two have the same id.
use bigfleet_providers.Prelude.{
  String, Bool, List, [], ◌∷◌, Option, none, some, All, get, insert, get-insert_eq, get-insert_ne,
  Result, ok, err, ◌≡◌, ◌≢◌, ◌↔◌, refl, sym, ◌∙◌, ◌⊎◌, inl, inr, Option-cases, ◌>>=◌,
}
use bigfleet_providers.Kit.Errors.{Error, Defect}
use bigfleet_providers.Kit.Machine.{Machine}
use bigfleet_providers.Kit.Instance.{Instance, validate, to_machine}
use bigfleet_providers.Kit.Instance.Shape.{InShape, validate-InShape}
use bigfleet_providers.Kit.Server.{Config, Server, string_key, touch, new_server, persist}
use bigfleet_providers.Kit.Startup.{seed_machine, seed_valid, seed_all, seed_with, seed}

-- No two instances have the same id.
abbrev pub NoTwins : List Instance → Type 0
NoTwins [] = Unit
NoTwins (i ∷ is) = All (λ j. i.id ≢ j.id) is × NoTwins is

-- The ids are not in the map.
abbrev Untaken : List (String × Machine) → List Instance → Type 0
Untaken machines = All (λ i. get i.id machines ≡ none)

-- What makes the seeding succeed.
abbrev pub Seedable : Bool → List Instance → Type 0
Seedable rz is = All (InShape rz) is × NoTwins is

Untaken-insert :
    (is : List Instance) (id : String) (m : Machine) (machines : List (String × Machine))
    → (All (λ j. id ≢ j.id) is × Untaken machines is) ↔ Untaken (insert id m machines) is
Untaken-insert [] id m machines = (λ h. tt, λ h. (tt, tt))
Untaken-insert (i ∷ is) id m machines =
    let (there, back) = Untaken-insert is id m machines in
    (
      λ h. (get-insert_ne i.id id m machines h.0.0 ∙ h.1.0, there (h.0.1, h.1.1)),
      λ h.
          let (apart, untaken) = back h.1 in
          (
            (other i h.0, apart),
            (sym (get-insert_ne i.id id m machines (other i h.0)) ∙ h.0, untaken),
          ),
    )
  where
    other : (i : Instance) → get i.id (insert id m machines) ≡ none → id ≢ i.id
    other i h e = clash (sym h ∙ get-insert_eq i.id id m machines e)
      where
        clash : Path (Option Machine) none (some m) → ⊥
        clash q = cc

-- The server that a seeding yields.
abbrev pub Seeded : {S : Type 0} → Result Error (Server S) → Type 0
Seeded {S} r = (s : Server S) × (r ≡ ok s)

module _ {S : Type 0} (rz : Bool) where
  placed : Instance → Server S → Server S
  placed i s = touch i.id (record s { machines = insert i.id (to_machine i) s.machines })

  -- One instance is seeded exactly if it is in shape and its id is not taken.
  seed_valid-ok :
      (o : Option Defect) (i : Instance) (s : Server S)
      → validate rz i ≡ o
      → ((InShape rz i × (get i.id s.machines ≡ none)) × (seed_valid o i s ≡ ok (placed i s)))
        ⊎ ((InShape rz i × (get i.id s.machines ≡ none) → ⊥)
            × ((e : Error) × (seed_valid o i s ≡ err e)))
  unfolding seed_valid seed_machine placed
  seed_valid-ok (some d) i s v = inr (λ h. clash (sym v ∙ (validate-InShape rz i).1 h.0), (_, refl))
    where
      clash : some d ≡ none → ⊥
      clash q = cc
  seed_valid-ok none i s v = elim (Option-cases (get i.id s.machines)) [
    | inl n ↦ inl (((validate-InShape rz i).0 v, n), rw n refl)
    | inr (m, e) ↦
        inr (
          λ h. clash m (sym e ∙ h.1),
          (Error.invalid_machine (Defect.duplicate_id i.id), rw e refl),
        )
  ]
    where
      clash : (m : Machine) → some m ≡ none → ⊥
      clash m q = cc

  seed_all-ok :
      (is : List Instance) (s : Server S)
      → Seeded (seed_all rz is s) ↔ (Seedable rz is × Untaken s.machines is)
  unfolding seed_all placed touch
  seed_all-ok [] s = (λ h. ((tt, tt), tt), λ h. (s, refl))
  seed_all-ok (i ∷ is) s = elim (seed_valid-ok (validate rz i) i s refl) [
    | inl ((shape, free), e) ↦ rw e (
      λ h.
          let (good, untaken) = (seed_all-ok is (placed i s)).0 h in
          let (apart, rest) = (Untaken-insert is i.id (to_machine i) s.machines).1 untaken in
          (((shape, good.0), (apart, good.1)), (free, rest)),
      λ h. (seed_all-ok is (placed i s)).1 (
        (h.0.0.1, h.0.1.1),
        (Untaken-insert is i.id (to_machine i) s.machines).0 (h.0.1.0, h.1.1),
      ),
    )
    | inr (bad, (er, e)) ↦ rw e (λ h. absurd (clash er h.0 h.1), λ h. absurd (bad (h.0.0.0, h.1.0)))
  ]
    where
      clash : (er : Error) (t : Server S) → Path (Result Error (Server S)) (err er) (ok t) → ⊥
      clash er t q = cc

Seeded-bind :
    {S : Type 0} (r : Result Error (Server S)) (f : Server S → Server S)
    → Seeded (r >>= λ s. ok (f s)) ↔ Seeded r
Seeded-bind {S = S} (ok s) f = (λ h. (s, refl), λ h. (f s, refl))
Seeded-bind {S = S} (err e) f = (λ h. absurd (clash h.0 h.1), λ h. absurd (clash h.0 h.1))
  where
    clash : (t : Server S) → Path (Result Error (Server S)) (err e) (ok t) → ⊥
    clash t q = cc

Untaken-empty : (is : List Instance) → Untaken [] is
unfolding get
Untaken-empty [] = tt
Untaken-empty (i ∷ is) = (refl, Untaken-empty is)

module _ {B S : Type 0} (cfg : Config B S) where
  -- The seeding of a server without machines succeeds exactly if the backend answers with
  -- instances that are in shape, no two of which have the same id.
  pub seed-Seeded :
      (b : B) (store : S)
      → Seeded (seed cfg b (new_server store)) ↔ (
          (is : List Instance) × (cfg.backend.describe b ≡ ok is)
          × Seedable cfg.opts.require_zone is)
  unfolding seed seed_with new_server
  seed-Seeded b store = with_answer (cfg.backend.describe b)
    where
      with_answer :
          (r : Result Error (List Instance))
          → Seeded (seed_with cfg r (new_server store))
            ↔ ((is : List Instance) × (r ≡ ok is) × Seedable cfg.opts.require_zone is)
      with_answer (err e) = (λ h. absurd (unseeded h.0 h.1), λ h. absurd (unanswered h.0 h.1))
        where
          unseeded : (t : Server S) → seed_with cfg (err e) (new_server store) ≡ ok t → ⊥
          unseeded t q = cc

          unanswered :
              (is : List Instance) → Path (Result Error (List Instance)) (err e) (ok is) → ⊥
          unanswered is q = cc
      with_answer (ok is) =
          let bound = Seeded-bind (seed_all rz is (new_server store)) (persist cfg.store) in
          let (there, back) = seed_all-ok rz is (new_server store) in
          (
            λ h. (is, refl, (there (bound.0 h)).0),
            λ h. bound.1 (back (rw (same h.0 h.1) h.2, Untaken-empty is)),
          )
        where
          rz : Bool
          rz = cfg.opts.require_zone

          same :
              (is' : List Instance)
              → Path (Result Error (List Instance)) (ok is) (ok is')
              → is ≡ is'
          same is' q = cc
