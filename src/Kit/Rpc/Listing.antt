-- ===== src/Kit/Rpc/Listing.antt =====
-- What `List` answers.
use bigfleet_providers.Prelude.{
  ℕ, zero, suc, ◌+◌, pos, String, Bool, true, false, List, [], ◌∷◌, none, some, ◌≡◌, refl, ap,
  arith, if◌then◌else◌, inl, inr, Bool-cases,
}
use bigfleet_providers.Prelude.Decimal.{format_int, parse_int, IsInt64, parse_int-format_int}
use bigfleet_providers.Kit.Fence.{is_empty}
use bigfleet_providers.Kit.Machine.{Machine}
use bigfleet_providers.Kit.Wire.{MachineMessage, machine_to_proto}
use bigfleet_providers.Kit.Messages.{ListFilter}
use bigfleet_providers.Kit.Server.{Server}
use bigfleet_providers.Kit.Rpc.{cursor, is_listed, is_full, collect, list}

-- The messages of the entries that pass the filter, in their order.
unfoldable pub chosen : (String × Machine → Bool) → List (String × Machine) → List MachineMessage
chosen p [] = []
chosen p (e ∷ es) = if p e then machine_to_proto e.1 ∷ chosen p es else chosen p es

-- The first `n` elements.
unfoldable pub take : ℕ → List MachineMessage → List MachineMessage
take zero ms = []
take (suc n) [] = []
take (suc n) (m ∷ ms) = m ∷ take n ms

-- As many as a limit allows; 0 is none.
unfoldable pub limited : ℕ → List MachineMessage → List MachineMessage
limited zero ms = ms
limited (suc k) ms = take (suc k) ms

collect_all :
    (p : String × Machine → Bool) (n : ℕ) (es : List (String × Machine))
    → collect p (pos 0) n es ≡ chosen p es
unfolding collect is_full chosen
collect_all p n [] = refl
collect_all p n (e ∷ es) = elim (Bool-cases (p e)) [
  | inl y ↦ rw y (ap (◌∷◌ (machine_to_proto e.1)) (collect_all p (suc n) es))
  | inr x ↦ rw x (collect_all p n es)
]

full : (max n : ℕ) → max ≡ n + 1 → is_full (pos max) (suc n) ≡ true
unfolding is_full
full max n h = ground arith

not-full : (max n k : ℕ) → max ≡ n + suc (suc k) → is_full (pos max) (suc n) ≡ false
unfolding is_full
not-full max n k h = ground arith

-- With a limit of which `n` are used.
collect_some :
    (p : String × Machine → Bool) (max n k : ℕ) (es : List (String × Machine))
    → max ≡ n + suc k
    → collect p (pos max) n es ≡ take (suc k) (chosen p es)
unfolding collect chosen take
collect_some p max n k [] h = refl
collect_some p max n zero (e ∷ es) h = elim (Bool-cases (p e)) [
  | inl y ↦ rw (y, full max n h) refl
  | inr x ↦ rw x (collect_some p max n zero es h)
]
collect_some p max n (suc k) (e ∷ es) h = elim (Bool-cases (p e)) [
  | inl y ↦
      rw (y, not-full max n k h)
        (ap (◌∷◌ (machine_to_proto e.1)) (collect_some p max (suc n) k es (omega (arith, h))))
  | inr x ↦ rw x (collect_some p max n (suc k) es h)
]

empty_lem : (t : String) → is_empty t ≡ true → t ≡ ""
empty_lem t h = ground arith

parse_empty : parse_int "" ≡ none
unfolding parse_int
parse_empty = refl

module _ {S : Type 0} (order : List (String × Machine)) (s : Server S) where
  -- Over entries in any order: with max_results 0 the answer is the message of every entry that the
  -- filter lets through, in that order; with a positive max_results it is the first of these, as
  -- many as that.
  pub list_lem :
      (req : ListFilter) (max : ℕ)
      → req.max_results ≡ pos max
      → (list order req s).machines ≡ limited max (chosen (is_listed s req) order)
  unfolding list limited
  list_lem req zero h = rw h (collect_all (is_listed s req) 0 order)
  list_lem req (suc k) h = rw h (collect_some (is_listed s req) (suc k) 0 k order (omega arith))

  -- The revision of an answer is a cursor for the next request, if it is an int64.
  pub cursor-list :
      (req : ListFilter) → IsInt64 s.rev → cursor (list order req s).revision ≡ some s.rev
  unfolding list cursor
  cursor-list req h = elim (Bool-cases (is_empty (format_int s.rev))) [
    | inl y ↦
        cc
          (parse_int-format_int s.rev h, ap parse_int (empty_lem (format_int s.rev) y), parse_empty)
    | inr n ↦ rw n (parse_int-format_int s.rev h)
  ]
