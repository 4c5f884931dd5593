-- ===== src/Kit/Sound/Inventory.antt =====
-- The maps of a server: distinct keys, and sound records under their ids.
use bigfleet_providers.Prelude.{
  String, Bool, true, false, refl, List, [], ◌∷◌, insert, Distinct, Every, All, All-of_Every,
  insert-Distinct, insert-Every, ◌≡◌,
}
use bigfleet_providers.Kit.Fence.{fence_key}
use bigfleet_providers.Kit.Machine.{Machine}
use bigfleet_providers.Kit.Store.{Store}
use bigfleet_providers.Kit.Server.{Server, op_key, string_key, persist, persist_if}
use bigfleet_providers.Kit.Server.RoundTrip.{KeyIsId}
use bigfleet_providers.Kit.Sound.{Sound}

pub record Fits {S : Type 0} (rz : Bool) (s : Server S) : Type 0 where
  pub sound : Every (Sound rz) s.machines
  pub machines : Distinct s.machines
  pub fences : Distinct s.fences
  pub ops : Distinct s.ops

All-KeyIsId :
    (rz : Bool) (ms : List (String × Machine)) → All (λ e. Sound rz e.0 e.1) ms → KeyIsId ms
All-KeyIsId rz [] h = tt
All-KeyIsId rz (e ∷ ms) h = (h.0.key_is_id, All-KeyIsId rz ms h.1)

-- Every machine stands under its own id.
pub Fits-KeyIsId : {S : Type 0} {rz : Bool} {s : Server S} → Fits rz s → KeyIsId s.machines
Fits-KeyIsId {rz = rz} {s = s} f =
    All-KeyIsId rz s.machines (All-of_Every (Sound rz) s.machines f.machines f.sound)

module _ {S : Type 0} (rz : Bool) where
  -- A server of which the three maps are those of another.
  pub Fits-same :
      (s t : Server S)
      → t.machines ≡ s.machines
      → t.ops ≡ s.ops
      → Distinct t.fences
      → Fits rz s
      → Fits rz t
  Fits-same s t m o d f = record {
    sound = rw m f.sound;
    machines = rw m f.machines;
    fences = d;
    ops = rw o f.ops;
  }

  -- One sound record is written.
  pub Fits-insert :
      (s t : Server S) (id : String) (m : Machine)
      → t.machines ≡ insert id m s.machines
      → Distinct t.ops
      → Distinct t.fences
      → Sound rz id m
      → Fits rz s
      → Fits rz t
  Fits-insert s t id m e o d h f = record {
    sound = rw e (insert-Every (Sound rz) id m s.machines f.sound h);
    machines = rw e (insert-Distinct id m s.machines f.machines);
    fences = d;
    ops = o;
  }

  pub persist-Fits : (st : Store S) (s : Server S) → Fits rz s → Fits rz (persist st s)
  unfolding persist
  persist-Fits st s f = Fits-same s (persist st s) refl refl f.fences f

  pub persist_if-Fits :
      (st : Store S) (b : Bool) (s : Server S) → Fits rz s → Fits rz (persist_if st b s)
  unfolding persist_if
  persist_if-Fits st true s f = persist-Fits st s f
  persist_if-Fits st false s f = f
