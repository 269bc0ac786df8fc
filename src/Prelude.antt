-- ===== src/Prelude.antt =====
-- The names that the other modules share: the libraries' and those of the children.
mod Booleans
mod Lists
pub mod Errors
pub mod Int
mod Maps
pub mod Text
unfoldable pub use Booleans.*
pub use Lists.*
unfoldable pub use Maps.{Dict, get, get_or, put, delete}
pub use Maps.{get-put, get-put_self, get_or-put, get-delete, get_or_of-get, dict_laws}
pub use Int.{ℤ, pos, negsuc}
pub use Prim.Native.Nat.{ℕ, zero, suc, ◌+◌, ◌-◌, ◌*◌, ◌/◌, ◌%◌, ◌^◌, ◌≤◌, ◌<◌}
pub use Prim.Native.String.{String}
pub use mathlib.Core.Path.{◌≡◌, refl, sym, ap, ◌∙◌}
pub use mathlib.Core.Logic.{◌≢◌, ◌↔◌, ◌⊎◌, inl, inr}
pub use mathlib.Core.Bool.{Bool, true, false, not, ◌&&◌, ◌||◌}
pub use mathlib.Core.Option.{Option, none, some}
pub use mathlib.Core.List.{List, [], ◌∷◌, ◌++◌, map}
pub use native.Mathlib.Omega.{arith}
