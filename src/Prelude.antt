-- ===== src/Prelude.antt =====
-- The names that the other modules share: those of the libraries, passed on, and those of the
-- children, which hold Boolean tests, lists, keys and texts.
mod Tests
mod Lists
mod Keys
mod Distinct
mod Dicts
mod Capped
mod Groups
mod Sort
mod Integers
mod Pigeonhole
mod Queries
mod Texts
pub use Tests.*
pub use Lists.*
unfoldable pub use Keys.*
unfoldable pub use Distinct.*
unfoldable pub use Dicts.*
unfoldable pub use Capped.*
unfoldable pub use Groups.*
unfoldable pub use Sort.*
unfoldable pub use Integers.*
unfoldable pub use Pigeonhole.*
unfoldable pub use Queries.*
unfoldable pub use Texts.*
pub use Prim.Native.Nat.{ℕ, zero, suc, ◌+◌, ◌-◌, ◌*◌, ◌/◌, ◌%◌, ◌≤◌, ◌<◌, min, max}
pub use Prim.Native.String.{String}
pub use mathlib.Core.Path.{◌≡◌, refl, sym, ap, ap₂, ◌∙◌, subst}
pub use mathlib.Core.Logic.{◌≢◌, ◌↔◌, ◌⊎◌, inl, inr}
pub use mathlib.Core.Bool.{Bool, true, false, not, ◌&&◌, ◌||◌}
pub use mathlib.Core.Option.{Option, none, some}
pub use mathlib.Core.Option.{get_or}
pub use mathlib.Core.List.{List, [], ◌∷◌, ◌++◌, map, append-nil, append_assoc}
pub use native.Mathlib.Omega.{arith}
