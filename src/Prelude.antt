-- ===== src/Prelude.antt =====
-- Names that the modules share: the libraries', passed on, and those of the children. Opaque
-- identifiers of the program (addresses, transaction hashes, strategy and wallet ids) are numbers,
-- of which only equality is tested; 0 stands for the zero value (zero address, zero hash, "").
mod Tests
mod Lists
mod Map
mod Div
pub mod Int
pub mod Result
pub use Tests.*
pub use Lists.*
unfoldable pub use Map.*
pub use Div.*
pub use Prim.Native.Nat.{ℕ, zero, suc, ◌+◌, ◌-◌, ◌*◌, ◌/◌, ◌%◌, ◌^◌, ◌≤◌, ◌<◌}
pub use mathlib.Core.Path.{◌≡◌, refl, sym, ap, ◌∙◌}
pub use mathlib.Core.Logic.{◌≢◌, ◌↔◌, ◌⊎◌, inl, inr}
pub use mathlib.Core.Bool.{Bool, true, false, not, ◌&&◌, ◌||◌}
pub use mathlib.Core.Option.{Option, none, some}
pub use mathlib.Core.List.{List, [], ◌∷◌, ◌++◌, map}
pub use native.Mathlib.Omega.{arith}
