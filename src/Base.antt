-- ===== src/Base.antt =====
-- Shared names: those of the libraries, passed on, and the helpers of the children below.
mod Tests
mod Lists
mod Strings
mod Split
mod Numbers
mod Results
pub mod Int
pub mod Trim
pub mod Pieces
pub use Tests.*
pub use Lists.*
unfoldable pub use Strings.*
unfoldable pub use Split.*
unfoldable pub use Numbers.*
pub use Results.*
pub use Prim.Native.Nat.{ℕ, zero, suc, ◌+◌, ◌-◌, ◌*◌, ◌/◌, ◌%◌, ◌^◌, ◌≤◌, ◌<◌}
pub use Prim.Native.String.{String}
pub use mathlib.Core.Path.{◌≡◌, refl, sym, ap, ◌∙◌}
pub use mathlib.Core.Logic.{◌≢◌, ◌↔◌, ◌⊎◌, inl, inr}
pub use mathlib.Core.Bool.{Bool, true, false, not, ◌&&◌, ◌||◌}
pub use mathlib.Core.Option.{Option, none, some}
pub use mathlib.Core.List.{List, [], ◌∷◌, ◌++◌, append-nil, append_assoc}
unfoldable pub use mathlib.Core.List.{map, reverse, flatten}
pub use native.Mathlib.Omega.{arith}
