-- ===== src/Prelude.antt =====
-- The names that every module shares: the libraries', passed on, and those of the children.
mod Tests
mod Equality
mod Text
mod Lists
mod Dicts
mod Results
pub mod Sort
pub mod Sets
pub use Tests.*
pub use Equality.*
unfoldable pub use Text.*
pub use Lists.*
pub use Results.*
pub use Dicts.{
  lookup-insert, lookup-insert_self, lookup-remove, is_in-keys, any-keys, Distinct-insert,
  Distinct-remove, All-insert, In-insert,
}
unfoldable pub use Dicts.{lookup, keys, insert, remove}
pub use Prim.Native.Nat.{ℕ, zero, suc, ◌+◌, ◌-◌, ◌*◌, ◌/◌, ◌%◌, ◌≤◌, ◌<◌, min, max}
pub use Prim.Native.String.{String}
pub use mathlib.Core.Path.{◌≡◌, refl, sym, ap, ◌∙◌, subst}
pub use mathlib.Core.Logic.{◌≢◌, ◌↔◌, ◌⊎◌, inl, inr}
pub use mathlib.Core.Bool.{Bool, true, false, not, ◌&&◌, ◌||◌}
pub use mathlib.Core.Option.{Option, none, some}
pub use mathlib.Core.List.{List, [], ◌∷◌, ◌++◌, map}
pub use native.Mathlib.Omega.{arith}
