-- ===== src/Prelude/Dict.antt =====
-- A Go map with a finite domain, as an association list: a read takes the first entry of the key,
-- a write changes that entry or adds one at the end.
use mathlib.Core.List.{List, [], ◌∷◌, ◌++◌, map, append-nil, append_assoc}
use mathlib.Core.Logic.{◌≢◌, ite, if_pos, if_neg}
use mathlib.Core.Option.{Option, none, some}
use mathlib.Core.Path.{◌≡◌, refl, sym, ap, subst, ◌∙◌}
use native.Mathlib.Omega.{arith}
use bigfleet_providers.Prelude.Basic.{All}

-- The types that a map may have for keys.
pub record Key {ℓ} (K : Type ℓ) : Type ℓ where
  pub same : Discrete K

module _ {ℓ} {K V : Type ℓ} where
  abbrev pub keys : List (K × V) → List K
  keys = map (λ e. e.0)

module _ {ℓ} {K V : Type ℓ} ⦃key : Key K⦄ where
  unfoldable pub get : K → List (K × V) → Option V
  get k [] = none
  get k (e ∷ m) = ite (key.same e.0 k) (some e.1) (get k m)

  unfoldable pub insert : K → V → List (K × V) → List (K × V)
  insert k v [] = (k, v) ∷ []
  insert k v (e ∷ m) = ite (key.same e.0 k) ((k, v) ∷ m) (e ∷ insert k v m)

  unfoldable pub remove : K → List (K × V) → List (K × V)
  remove k [] = []
  remove k (e ∷ m) = ite (key.same e.0 k) (remove k m) (e ∷ remove k m)

  -- Two maps with the same values.
  abbrev pub Agree : List (K × V) → List (K × V) → Type ℓ
  Agree m n = (k : K) → get k m ≡ get k n

  pub get-insert :
      (j k : K) (v : V) (m : List (K × V))
      → get j (insert k v m) ≡ ite (key.same k j) (some v) (get j m)
  unfolding get insert
  get-insert j k v [] = refl
  get-insert j k v (e ∷ m) = ground (arith, get-insert j k v m)

  pub get-insert_eq : (j k : K) (v : V) (m : List (K × V)) → k ≡ j → get j (insert k v m) ≡ some v
  get-insert_eq j k v m q = get-insert j k v m ∙ if_pos (key.same k j) q _ _

  pub get-insert_ne : (j k : K) (v : V) (m : List (K × V)) → k ≢ j → get j (insert k v m) ≡ get j m
  get-insert_ne j k v m q = get-insert j k v m ∙ if_neg (key.same k j) q _ _

  pub get-insert_self : (k : K) (v : V) (m : List (K × V)) → get k (insert k v m) ≡ some v
  get-insert_self k v m = get-insert_eq k k v m refl

  pub get-remove :
      (j k : K) (m : List (K × V)) → get j (remove k m) ≡ ite (key.same k j) none (get j m)
  unfolding get remove
  get-remove j k [] = ground arith
  get-remove j k (e ∷ m) = ground (arith, get-remove j k m)

  -- No key stands twice.
  abbrev pub Distinct : List (K × V) → Type ℓ
  Distinct [] = Unit
  Distinct (e ∷ m) = (get e.0 m ≡ none) × Distinct m

  -- A predicate holds of every key and its value.
  abbrev pub Every {κ} : (K → V → Type κ) → List (K × V) → Type (ℓ ⊔ κ)
  Every P m = (k : K) (v : V) → get k m ≡ some v → P k v

  pub insert-Distinct : (k : K) (v : V) (m : List (K × V)) → Distinct m → Distinct (insert k v m)
  unfolding get insert
  insert-Distinct k v [] d = (refl, tt)
  insert-Distinct k v (e ∷ m) d = elim (key.same e.0 k) [
    | yes p ↦ rw (if_pos _ p) (rw (← p) d.0, d.1)
    | no p ↦ rw (if_neg _ p) (
      get-insert e.0 k v m ∙ if_neg (key.same k e.0) (λ q. p (sym q)) _ _ ∙ d.0,
      insert-Distinct k v m d.1,
    )
  ]

  pub insert-Every {κ} :
      (P : K → V → Type κ) (k : K) (v : V) (m : List (K × V))
      → Every P m
      → P k v
      → Every P (insert k v m)
  insert-Every P k v m h p j w e = elim (key.same k j) [
    | yes q ↦
        let same : v ≡ w = cc (get-insert_eq j k v m q, e) in
        subst (λ i. P i w) q (subst (P k) same p)
    | no q ↦ h j w (sym (get-insert_ne j k v m q) ∙ e)
  ]

  -- A write of the value that is there changes nothing.
  pub insert_same : (k : K) (v : V) (m : List (K × V)) → get k m ≡ some v → insert k v m ≡ m
  unfolding get insert
  insert_same k v [] h = cc
  insert_same k v (e ∷ m) h = elim (key.same e.0 k) [
    | yes p ↦ if_pos (key.same e.0 k) p _ _ ∙ ap (λ x. x ∷ m) (entry p)
    | no p ↦
        if_neg (key.same e.0 k) p _ _
        ∙ ap (λ n. e ∷ n) (insert_same k v m (sym (if_neg (key.same e.0 k) p _ _) ∙ h))
  ]
    where
      entry : e.0 ≡ k → (k, v) ≡ e
      entry p =
          let q : e.1 ≡ v = here (sym (if_pos (key.same e.0 k) p _ _) ∙ h) in rw (sym p, sym q) refl
        where
          here : some e.1 ≡ some v → e.1 ≡ v
          here q = cc

  -- A write to a key that is not there adds an entry at the end.
  pub insert_new :
      (k : K) (v : V) (m : List (K × V)) → get k m ≡ none → insert k v m ≡ m ++ (k, v) ∷ []
  unfolding get insert
  insert_new k v [] h = refl
  insert_new k v (e ∷ m) h = ground (arith, insert_new k v m)

  -- The entries of a map, written one by one.
  unfoldable pub rebuild : List (K × V) → List (K × V) → List (K × V)
  rebuild [] acc = acc
  rebuild (e ∷ m) acc = rebuild m (insert e.0 e.1 acc)

  ne_of_not-get :
      (k : K) (acc m : List (K × V)) (e : K × V) → get k (acc ++ (e ∷ m)) ≡ none → k ≢ e.0
  unfolding get
  ne_of_not-get k [] m e h q = ground arith
  ne_of_not-get k (a ∷ acc) m e h q = ne_of_not-get k acc m e (ground arith) q

  Distinct-middle :
      (acc m : List (K × V)) (e : K × V) → Distinct (acc ++ (e ∷ m)) → get e.0 acc ≡ none
  unfolding get
  Distinct-middle [] m e d = refl
  Distinct-middle (a ∷ acc) m e d =
      if_neg (key.same a.0 e.0) (ne_of_not-get a.0 acc m e d.0) _ _ ∙ Distinct-middle acc m e d.1

  -- Entries with distinct keys are appended.
  pub rebuild_lem : (m acc : List (K × V)) → Distinct (acc ++ m) → rebuild m acc ≡ acc ++ m
  unfolding rebuild
  rebuild_lem [] acc d = sym (append-nil acc)
  rebuild_lem (e ∷ m) acc d =
      ap (rebuild m) (insert_new e.0 e.1 acc (Distinct-middle acc m e d))
      ∙ rebuild_lem m (acc ++ e ∷ []) (rw append_assoc d)
      ∙ append_assoc acc (e ∷ []) m

  get-cons_self : (e : K × V) (m : List (K × V)) → get e.0 (e ∷ m) ≡ some e.1
  unfolding get
  get-cons_self e m = if_pos (key.same e.0 e.0) refl _ _

  get-cons_later :
      (e : K × V) (m : List (K × V)) (k : K) (v : V)
      → get e.0 m ≡ none
      → get k m ≡ some v
      → get k (e ∷ m) ≡ some v
  unfolding get
  get-cons_later e m k v h g = elim (key.same e.0 k) [
    | yes p ↦ absurd (none_ne_some (sym h ∙ ap (λ j. get j m) p ∙ g))
    | no p ↦ if_neg (key.same e.0 k) p _ _ ∙ g
  ]
    where
      none_ne_some : none ≡ some v → ⊥
      none_ne_some q = cc

  -- What holds of every key and value holds of every entry.
  pub All-of_Every {κ} :
      (P : K → V → Type κ) (m : List (K × V)) → Distinct m → Every P m → All (λ e. P e.0 e.1) m
  All-of_Every P [] d h = tt
  All-of_Every P (e ∷ m) d h = (
    h e.0 e.1 (get-cons_self e m),
    All-of_Every P m d.1 (λ k v g. h k v (get-cons_later e m k v d.0 g)),
  )
