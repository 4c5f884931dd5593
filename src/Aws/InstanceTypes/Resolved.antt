-- ===== src/Aws/InstanceTypes/Resolved.antt =====
-- A resolution that reports nothing missing knows every type that was asked for.
use bigfleet_providers.Prelude.{
  ℕ, suc, ◌+◌, String, String-discrete, Bool, true, false, Option, none, some, List, [], ◌∷◌,
  length, get, insert, get-insert, Result, ok, err, ◌≡◌, ◌≢◌, refl, sym, subst, ap, ◌∙◌, arith, ◌⊎◌,
  inl, inr, Bool-cases, Option-cases, if_pos, if_neg, if◌then◌else◌, ◌==◌,
}
use mathlib.Core.List.{Memᴰ}
use bigfleet_providers.Kit.Errors.{Error}
use bigfleet_providers.Kit.Server.{string_key}
use bigfleet_providers.Aws.Ec2.{Ec2Client, InstanceCapacity}
use bigfleet_providers.Aws.InstanceTypes.{
  Cache, overlay_capacities, listed, skips, distinct_from, missing, resolved, dedupe_non_empty,
  resolve,
}

-- The cache knows the type.
abbrev pub Knows : Cache → String → Type 0
Knows cache t = (c : InstanceCapacity) × (get t cache ≡ some c)

insert-Knows :
    (t u : String) (c : InstanceCapacity) (cache : Cache)
    → Knows cache t
    → Knows (insert u c cache) t
insert-Knows t u c cache (d, g) = elim (String-discrete u t) [
  | yes e ↦ (c, get-insert t u c cache ∙ if_pos (String-discrete u t) e _ _)
  | no n ↦ (d, get-insert t u c cache ∙ if_neg (String-discrete u t) n _ _ ∙ g)
]

overlay-Knows :
    (t : String) (caps : List (String × InstanceCapacity)) (cache : Cache)
    → Knows cache t
    → Knows (overlay_capacities caps cache) t
unfolding overlay_capacities
overlay-Knows t [] cache k = k
overlay-Knows t ((u, c) ∷ caps) cache k =
    overlay-Knows t caps (insert u c cache) (insert-Knows t u c cache k)

-- What was overlaid is known.
overlay_new :
    (t : String) (caps : List (String × InstanceCapacity)) (cache : Cache)
    → Knows caps t
    → Knows (overlay_capacities caps cache) t
unfolding overlay_capacities get
overlay_new t [] cache (d, g) = cc
overlay_new t ((u, c) ∷ caps) cache (d, g) = elim (String-discrete u t) [
  | yes e ↦
      overlay-Knows t caps (insert u c cache)
        (c, get-insert t u c cache ∙ if_pos (String-discrete u t) e _ _)
  | no n ↦ overlay_new t caps (insert u c cache) (d, sym (if_neg (String-discrete u t) n _ _) ∙ g)
]

missing-none :
    (want : List String) (caps : List (String × InstanceCapacity)) (t : String)
    → missing want caps ≡ 0
    → Memᴰ t want
    → Knows caps t
unfolding missing
missing-none [] caps t h m = elim m [ ]
missing-none (u ∷ want) caps t h m = elim (Option-cases (get u caps)) [
  | inl n ↦ absurd (positive (ap (count (missing want caps)) (sym n) ∙ h))
  | inr (c, e) ↦
      here c e m
        (λ k. missing-none want caps t (rest (ap (count (missing want caps)) (sym e) ∙ h)) k)
]
  where
    count : ℕ → Option InstanceCapacity → ℕ
    count k o = elim o [ none ↦ 1 | some c ↦ 0 ] + k

    positive : 1 + missing want caps ≡ 0 → ⊥
    positive q = omega arith

    rest : 0 + missing want caps ≡ 0 → missing want caps ≡ 0
    rest q = omega arith

    here :
        (c : InstanceCapacity)
        → get u caps ≡ some c
        → Memᴰ t (u ∷ want)
        → (Memᴰ t want → Knows caps t)
        → Knows caps t
    here c e (Memᴰ.head q) k = (c, ap (λ v. get v caps) q ∙ e)
    here c e (Memᴰ.tail m) k = k m

skips-cases :
    (s : String) (seen : List String) → s ≢ "" → skips s seen ≡ true → listed s seen ≡ true
unfolding skips
skips-cases s seen n h = sym (if_neg (String-discrete s "") n _ _) ∙ h

distinct_skip :
    (s : String) (ts seen : List String)
    → skips s seen ≡ true
    → distinct_from seen (s ∷ ts) ≡ distinct_from seen ts
unfolding distinct_from
distinct_skip s ts seen h = rw (distinct_from, h) refl

distinct_keep :
    (s : String) (ts seen : List String)
    → skips s seen ≡ false
    → distinct_from seen (s ∷ ts) ≡ s ∷ distinct_from (s ∷ seen) ts
unfolding distinct_from
distinct_keep s ts seen h = rw (distinct_from, h) refl

-- Seen, or kept.
abbrev Found : String → List String → List String → Type 0
Found t seen kept = (listed t seen ≡ true) ⊎ Memᴰ t kept

keep-Found :
    (s t : String) (seen kept : List String) → Found t (s ∷ seen) kept → Found t seen (s ∷ kept)
keep-Found s t seen kept (inr m) = inr (Memᴰ.tail m)
keep-Found s t seen kept (inl l) = elim (String-discrete s t) [
  | yes e ↦ inr (Memᴰ.head (sym e))
  | no n ↦ inl (sym (if_neg (String-discrete s t) n _ _) ∙ l)
]

-- Every text but "" stays, or was seen.
distinct_from-Found :
    (ts seen : List String) (t : String) → t ≢ "" → Memᴰ t ts → Found t seen (distinct_from seen ts)
distinct_from-Found [] seen t n m = elim m [ ]
distinct_from-Found (s ∷ ts) seen t n (Memᴰ.head q) = elim (Bool-cases (skips s seen)) [
  | inl y ↦ inl (subst (λ x. listed x seen ≡ true) (sym q) (skips-cases s seen (λ e. n (q ∙ e)) y))
  | inr k ↦ inr (subst (Memᴰ t) (sym (distinct_keep s ts seen k)) (Memᴰ.head q))
]
distinct_from-Found (s ∷ ts) seen t n (Memᴰ.tail m) = elim (Bool-cases (skips s seen)) [
  | inl y ↦
      subst (Found t seen) (sym (distinct_skip s ts seen y)) (distinct_from-Found ts seen t n m)
  | inr k ↦
      subst (Found t seen) (sym (distinct_keep s ts seen k))
        (keep-Found s t seen _ (distinct_from-Found ts (s ∷ seen) t n m))
]

module _ {E : Type 0} (client : Ec2Client E) (sort : List String → List String)
    (keeps : (t : String) (ts : List String) → Memᴰ t ts → Memᴰ t (sort ts)) where
  wanted :
      (types : List String) (t : String)
      → t ≢ ""
      → Memᴰ t types
      → Memᴰ t (dedupe_non_empty sort types)
  unfolding dedupe_non_empty
  wanted types t n m = keeps t (distinct_from [] types) (kept (distinct_from-Found types [] t n m))
    where
      kept : Found t [] (distinct_from [] types) → Memᴰ t (distinct_from [] types)
      kept (inl l) = absurd (clash l)
        where
          clash : false ≡ true → ⊥
          clash q = cc
      kept (inr k) = k

  nonempty : (t : String) (ts : List String) → length ts ≡ 0 → Memᴰ t ts → ⊥
  nonempty t [] h m = elim m [ ]
  nonempty t (u ∷ ts) h m = positive h
    where
      positive : suc (length ts) ≡ 0 → ⊥
      positive q = omega arith

  resolved-Knows :
      (want : List String) (r : Result Error (List (String × InstanceCapacity))) (cache : Cache)
      (t : String)
      → (resolved want r cache).1 ≡ 0
      → Memᴰ t want
      → Knows (resolved want r cache).0 t
  unfolding resolved
  resolved-Knows want (err e) cache t h m = absurd (nonempty t want h m)
  resolved-Knows want (ok caps) cache t h m =
      overlay_new t caps cache (missing-none want caps t h m)

  -- With a sort that loses nothing: if `resolve` reports that no type is missing, the cache knows
  -- every type that was asked for, other than "".
  pub resolve-Knows :
      (types : List String) (e : E) (cache : Cache) (t : String)
      → (resolve sort client types e cache).1 ≡ 0
      → Memᴰ t types
      → t ≢ ""
      → Knows (resolve sort client types e cache).0 t
  unfolding resolve
  resolve-Knows types e cache t h m n = with_empty (length want == 0) refl h
    where
      want : List String
      want = dedupe_non_empty sort types

      with_empty :
          (b : Bool)
          → (length want == 0) ≡ b
          → (if b
              then (cache, 0)
              else resolved want (client.describe_instance_capacities want e) cache).1
            ≡ 0
          → Knows
              (if b
                then (cache, 0)
                else resolved want (client.describe_instance_capacities want e) cache).0
              t
      with_empty true q k = absurd (nonempty t want (zero_of q) (wanted types t n m))
        where
          zero_of : (length want == 0) ≡ true → length want ≡ 0
          zero_of p = ground arith
      with_empty false q k = resolved-Knows want _ cache t k (wanted types t n m)
