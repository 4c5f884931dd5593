-- ===== src/Kit/System/Marks.antt =====
-- The order of the marks of the fence, and what each part of a call does to them: it keeps or
-- raises them.
use bigfleet_providers.Prelude.{
  ◌≤ℤ◌, ◌<ℤ◌, String, true, false, List, some, get, get-insert_eq, get-insert_ne, ◌≡◌, refl, ◌∙◌,
  arith, ◌⊎◌, inl, inr, Bool-cases, eqb_ℤ,
}
use bigfleet_providers.Kit.Fence.{Fence, FenceKey, FenceMark, FenceKey-discrete, fence_key, newer}
use bigfleet_providers.Kit.Server.{Server, string_key}
use bigfleet_providers.Kit.Dispatch.Cases.{FenceStep, fence_key_of, mark_of}
use bigfleet_providers.Kit.Startup.{new}

-- The order of marks: by epoch, then by sequence.
abbrev pub MarkLe : FenceMark → FenceMark → Type 0
MarkLe a b = (a.epoch <ℤ b.epoch) ⊎ ((a.epoch ≡ b.epoch) × (a.sequence ≤ℤ b.sequence))

MarkLe-refl : (a : FenceMark) → MarkLe a a
MarkLe-refl a = inr (refl, omega arith)

MarkLe-trans : (a b c : FenceMark) → MarkLe a b → MarkLe b c → MarkLe a c
MarkLe-trans a b c (inl h) (inl k) = inl (omega arith)
MarkLe-trans a b c (inl h) (inr (e, k)) = inl (rw (← e) h)
MarkLe-trans a b c (inr (e, h)) (inl k) = inl (rw e k)
MarkLe-trans a b c (inr (e, h)) (inr (f, k)) = inr (e ∙ f, omega arith)

-- A token that passes a mark is above it.
newer-MarkLe : (m : FenceMark) (f : Fence) → newer m f ≡ true → MarkLe m (mark_of f)
unfolding newer
newer-MarkLe m f h = elim (Bool-cases (eqb_ℤ f.shard_epoch m.epoch)) [
  | inl y ↦ inr (same y, later y h)
  | inr n ↦ inl (above n h)
]
  where
    same : eqb_ℤ f.shard_epoch m.epoch ≡ true → m.epoch ≡ f.shard_epoch
    same y = ground arith

    later : eqb_ℤ f.shard_epoch m.epoch ≡ true → newer m f ≡ true → m.sequence ≤ℤ f.sequence_number
    later y h = ground arith

    above : eqb_ℤ f.shard_epoch m.epoch ≡ false → newer m f ≡ true → m.epoch <ℤ f.shard_epoch
    above n h = ground arith

-- What is not newer than a mark is not newer than a later one.
pub MarkLe-newer :
    (a b : FenceMark) (f : Fence) → MarkLe a b → newer a f ≡ false → newer b f ≡ false
unfolding newer
MarkLe-newer a b f (inl h) k = ground arith
MarkLe-newer a b f (inr (e, h)) k = ground arith

-- Every mark stays or goes up.
abbrev pub Advances : List (FenceKey × FenceMark) → List (FenceKey × FenceMark) → Type 0
Advances old new =
    (k : FenceKey) (a : FenceMark)
    → get k old ≡ some a
    → (b : FenceMark) × (get k new ≡ some b) × MarkLe a b

pub Advances-same : (old new : List (FenceKey × FenceMark)) → new ≡ old → Advances old new
Advances-same old new e k a h = (a, rw e h, MarkLe-refl a)

pub Advances-trans :
    (x y z : List (FenceKey × FenceMark)) → Advances x y → Advances y z → Advances x z
Advances-trans x y z f g k a h =
    let (b, p, q) = f k a h in let (c, r, t) = g k b p in (c, r, MarkLe-trans a b c q t)

-- A token that passed the mark of its key.
pub FenceStep-Advances :
    {S : Type 0} (id : String) (f : Fence) (s : Server S) (fences : List (FenceKey × FenceMark))
    → FenceStep id f s fences
    → Advances s.fences fences
FenceStep-Advances id f s fences (inl e) = Advances-same s.fences fences e
FenceStep-Advances id f s fences (inr (e, passed)) = λ k a h.
    elim (FenceKey-discrete (fence_key_of id f) k) [
      | yes q ↦ (
        mark_of f,
        rw e (get-insert_eq k (fence_key_of id f) (mark_of f) s.fences q),
        newer-MarkLe a f (passed a (rw q h)),
      )
      | no n ↦
          (a, rw e (get-insert_ne k (fence_key_of id f) (mark_of f) s.fences n ∙ h), MarkLe-refl a)
    ]
