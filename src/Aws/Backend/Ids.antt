-- ===== src/Aws/Backend/Ids.antt =====
-- The ids of the slots: their parts are read back from them.
use Prim.Native.Char.{Char, code}
use bigfleet_providers.Prelude.{
  ℕ, ◌≤◌, ◌<◌, ℤ, pos, negsuc, max_int64, String, Bool, true, false, ◌==◌, if◌then◌else◌, ◌≡◌, ◌≢◌,
  refl, sym, ap, ◌∙◌, arith,
}
use text.Mathlib.TextLemmas.{
  append_cancel_left, nil-append, cons-append, head-eq_of_cons-eq, tail-eq_of_cons-eq,
}
use bigfleet_providers.Prelude.Text.{padded, padded_injective}
use bigfleet_providers.Kit.Lifecycle.{CapacityType, capacity_name}
use bigfleet_providers.Kit.Lifecycle.Names.{capacity_of_name-capacity_name}
use bigfleet_providers.Aws.Offering.{Offering}
use bigfleet_providers.Aws.Backend.{joined, slot_id}

-- A text without a slash.
unfoldable pub no_slash : String → Bool
no_slash String.[] = true
no_slash (String.◌∷◌ c s) = if code c == b'/' then false else no_slash s

no_slash_head : (c : Char) (s : String) → no_slash (String.◌∷◌ c s) ≡ true → c ≢ "/"
unfolding no_slash
no_slash_head c s h e = same (ap code e)
  where
    same : ¬ (code c ≡ b'/')
    same q = ground arith

no_slash_tail : (c : Char) (s : String) → no_slash (String.◌∷◌ c s) ≡ true → no_slash s ≡ true
unfolding no_slash
no_slash_tail c s h = ground arith

joined-[] : (r : String) → joined String.[] r ≡ String.◌∷◌ "/" r
joined-[] r = nil-append _ ∙ cons-append "/" "" r ∙ ap (String.◌∷◌ "/") (nil-append r)

joined-∷ : (c : Char) (a r : String) → joined (String.◌∷◌ c a) r ≡ String.◌∷◌ c (joined a r)
joined-∷ c a r = cons-append c a _

-- A text ends at its first slash.
cut :
    (a b r s : String)
    → no_slash a ≡ true
    → no_slash b ≡ true
    → joined a r ≡ joined b s
    → (a ≡ b) × (r ≡ s)
cut String.[] String.[] r s h k e = (refl, tail-eq_of_cons-eq (sym (joined-[] r) ∙ e ∙ joined-[] s))
cut String.[] (String.◌∷◌ d b) r s h k e =
    absurd (no_slash_head d b k (sym (head-eq_of_cons-eq (sym (joined-[] r) ∙ e ∙ joined-∷ d b s))))
cut (String.◌∷◌ c a) String.[] r s h k e =
    absurd (no_slash_head c a h (head-eq_of_cons-eq (sym (joined-∷ c a r) ∙ e ∙ joined-[] s)))
cut (String.◌∷◌ c a) (String.◌∷◌ d b) r s h k e =
    let q = sym (joined-∷ c a r) ∙ e ∙ joined-∷ d b s in
    let (same, rest) =
      cut a b r s (no_slash_tail c a h) (no_slash_tail d b k) (tail-eq_of_cons-eq q) in
    (cc (head-eq_of_cons-eq q, same), rest)

no_slash-capacity_name : (c : CapacityType) → no_slash (capacity_name c) ≡ true
unfolding capacity_name no_slash
no_slash-capacity_name CapacityType.spot = refl
no_slash-capacity_name _ = refl

capacity_name_injective : (c d : CapacityType) → capacity_name c ≡ capacity_name d → c ≡ d
capacity_name_injective c d e =
    cc (e, capacity_of_name-capacity_name c, capacity_of_name-capacity_name d)

-- An int64 of Go is at most 2 ^ 63 - 1.
abbrev pub AtMostMax : ℤ → Type 0
AtMostMax (pos n) = n ≤ max_int64
AtMostMax (negsuc n) = Unit

-- An offering whose names have no slash.
pub record Plain (off : Offering) : Type 0 where
  pub instance_type : no_slash off.instance_type ≡ true
  pub zone : no_slash off.zone ≡ true
  pub count : AtMostMax off.count

-- The capacity type, the instance type and the zone are the same.
abbrev pub SameShape : CapacityType → CapacityType → Offering → Offering → Type 0
SameShape c d o p = (c ≡ d) × (o.instance_type ≡ p.instance_type) × (o.zone ≡ p.zone)

joined_cancel : (a r s : String) → joined a r ≡ joined a s → r ≡ s
joined_cancel a r s e = append_cancel_left "/" r s (append_cancel_left a _ _ e)

-- The parts of an id are read back.
pub slot_id_parts :
    (name : String) (c d : CapacityType) (o p : Offering) (i j : ℤ)
    → Plain o
    → Plain p
    → slot_id name c o i ≡ slot_id name d p j
    → SameShape c d o p × (padded 3 i ≡ padded 3 j)
unfolding slot_id
slot_id_parts name c d o p i j h k e =
    let (names, after_name) =
      cut (capacity_name c) (capacity_name d) _ _ (no_slash-capacity_name c)
        (no_slash-capacity_name d) (joined_cancel name _ _ e) in
    let (types, after_type) =
      cut o.instance_type p.instance_type _ _ h.instance_type k.instance_type after_name in
    let (zones, numbers) = cut o.zone p.zone _ _ h.zone k.zone after_type in
    ((capacity_name_injective c d names, types, zones), numbers)

pub slot_id_apart :
    (name : String) (c : CapacityType) (off : Offering) (i n : ℕ)
    → i < n
    → n ≤ max_int64
    → Plain off
    → slot_id name c off (pos i) ≢ slot_id name c off (pos n)
slot_id_apart name c off i n m l h e = apart (
    padded_injective 3 i n (ground arith) l
      (slot_id_parts name c c off off (pos i) (pos n) h h e).1)
  where
    apart : i ≡ n → ⊥
    apart q = ground arith
