-- ===== src/Kit/Fence.antt =====
-- providerkit/fence.go: the fencing token of a shard and the high-water mark of a (shard, machine).
use bigfleet_providers.Prelude.{
  String, Bool, true, false, ite, not, ◌&&◌, if◌then◌else◌, Key, String-discrete, ℤ, pos, ltb_ℤ,
  eqb_ℤ,
}

pub record Fence : Type 0 where
  pub shard_id : String
  pub shard_epoch : ℤ
  pub sequence_number : ℤ

pub record FenceKey : Type 0 where
  pub shard_id : String
  pub machine_id : String

unfoldable pub FenceKey-discrete : Discrete FenceKey
FenceKey-discrete = hlevel String-discrete

instance abbrev pub fence_key : Key FenceKey
fence_key = record { same = FenceKey-discrete }

pub record FenceMark : Type 0 where
  pub epoch : ℤ
  pub sequence : ℤ

abbrev pub is_empty : String → Bool
is_empty s = ite (String-discrete s "") true false

-- `Fence.zero`: the token is not set.
unfoldable pub is_zero : Fence → Bool
is_zero f = is_empty f.shard_id && eqb_ℤ f.shard_epoch (pos 0) && eqb_ℤ f.sequence_number (pos 0)

-- `FenceMark.newer`: the token is strictly newer than the mark.
unfoldable pub newer : FenceMark → Fence → Bool
newer m f =
    if not (eqb_ℤ f.shard_epoch m.epoch)
    then ltb_ℤ m.epoch f.shard_epoch
    else ltb_ℤ m.sequence f.sequence_number
