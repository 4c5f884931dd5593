-- ===== src/Prelude.antt =====
-- The names that the other modules share: those of the libraries, and those of the children.
mod Basic
mod Results
mod Dict
mod Int64
pub mod Decimal
pub mod Text
pub mod Float
pub mod Product
unfoldable pub use Basic.*
pub use Results.*
unfoldable pub use Dict.{get, insert, remove, rebuild}
pub use Dict.{
  Key, keys, Agree, Distinct, Every, get-insert, get-insert_eq, get-insert_ne, get-insert_self,
  get-remove, insert-Distinct, insert-Every, insert_same, insert_new, rebuild_lem, All-of_Every,
}
unfoldable pub use Int64.*
pub use Prim.Native.Nat.{ℕ, zero, suc, ◌+◌, ◌-◌, ◌*◌, ◌/◌, ◌%◌, ◌^◌, ◌≤◌, ◌<◌}
pub use Prim.Native.String.{String}
pub use mathlib.Core.Path.{◌≡◌, refl, sym, ap, subst, ◌∙◌}
pub use mathlib.Core.Logic.{◌≢◌, ◌↔◌, ◌⊎◌, inl, inr, ite, dite, if_pos, if_neg}
pub use mathlib.Core.Bool.{Bool, true, false, not, ◌&&◌, ◌||◌}
pub use mathlib.Core.Option.{Option, none, some}
pub use mathlib.Core.List.{List, [], ◌∷◌, ◌++◌, map, Perm}
pub use native.Mathlib.Omega.{arith}
unfoldable pub use native.Mathlib.Decide.{dec_lt, dec_le, ℕ_discrete}
