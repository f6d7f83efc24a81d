-- ===== src/Prelude.antt =====
-- Names the modules of this library share: the imported libraries', passed on, the Boolean tests
-- of `Prelude.Tests`, the list functions of `Prelude.Lists` with membership in `Prelude.Members`, the maps
-- of `Prelude.Maps` and the lengths and classes of characters of `Prelude.Strings`.
mod Tests
mod Lists
mod Maps
mod Members
mod Strings
pub use Tests.*
pub use Lists.*
pub use Members.*
unfoldable pub use Strings.*
unfoldable pub use Maps.*
pub use Prim.Native.Nat.{ℕ, zero, suc, ◌+◌, ◌-◌, ◌*◌, ◌/◌, ◌%◌, ◌^◌, ◌≤◌, ◌<◌, min, max}
pub use Prim.Native.String.{String}
pub use mathlib.Core.Path.{◌≡◌, refl, sym, ap, subst, ◌∙◌}
pub use mathlib.Core.Logic.{◌≢◌, ◌↔◌, ◌⊎◌, inl, inr}
pub use mathlib.Core.Bool.{Bool, true, false, not, ◌&&◌, ◌||◌}
pub use mathlib.Core.Option.{Option, none, some}
pub use mathlib.Core.List.{List, [], ◌∷◌, ◌++◌, map, reverse, Perm, append-nil, append_assoc}
pub use native.Mathlib.Omega.{arith}
