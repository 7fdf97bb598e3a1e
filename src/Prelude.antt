-- ===== src/Prelude.antt =====
-- The names that the other modules share: the libraries', passed on, and those of the children.
pub mod Tests
pub mod Lists
pub mod Codes
pub mod Integers
pub mod Sorting
pub mod Quoting
pub mod Format
pub mod Index
pub mod Search
pub mod Sets
pub mod Pairs
pub mod Nonempty
pub mod Distinct
pub mod Ordering
pub mod Counting
pub use Tests.*
pub use Lists.*
pub use Integers.*
unfoldable pub use Sorting.{codes, codes_less, str_less, insert_sorted, sort, sort_strings}
pub use Format.*
pub use Index.*
pub use Search.*
pub use Sets.*
pub use Ordering.*
pub use Counting.*
pub use Prim.Native.Nat.{ℕ, zero, suc, ◌+◌, ◌-◌, ◌≤◌, ◌<◌}
pub use Prim.Native.String.{String}
pub use mathlib.Core.Path.{◌≡◌, refl, sym, ap, ◌∙◌}
pub use mathlib.Core.Logic.{◌≢◌, ◌↔◌, ◌⊎◌, inl, inr}
pub use mathlib.Core.Bool.{Bool, true, false, not, ◌&&◌, ◌||◌}
pub use mathlib.Core.Option.{Option, none, some}
pub use mathlib.Core.List.{List, [], ◌∷◌, ◌++◌, map, append_assoc, append-nil}
pub use native.Mathlib.Omega.{arith}
