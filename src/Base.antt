-- ===== src/Base.antt =====
-- Names that every module shares: the libraries', passed on, and those of the children, which
-- hold the Go idioms the packages have in common (tests, lists, errors, maps, enumerations).
pub mod Tests
pub mod Lists
pub mod Results
pub mod Maps
pub mod Ints
pub mod Vocabulary
pub mod Shas
pub mod Texts
unfoldable pub use Tests.*
pub use Lists.*
pub use Results.*
pub use Maps.*
pub use Ints.*
unfoldable pub use Vocabulary.*
unfoldable pub use Shas.*
unfoldable pub use Texts.*
pub use Prim.Native.Nat.{ℕ, zero, suc, ◌+◌, ◌-◌, ◌*◌, ◌/◌, ◌%◌, ◌≤◌, ◌<◌}
pub use Prim.Native.String.{String}
pub use mathlib.Core.Path.{◌≡◌, refl, sym, ap, subst, ◌∙◌}
pub use mathlib.Core.Logic.{◌≢◌, ◌↔◌, ◌⊎◌, inl, inr}
pub use mathlib.Core.Bool.{Bool, true, false, not, ◌&&◌, ◌||◌}
pub use mathlib.Core.Option.{Option, none, some}
pub use mathlib.Core.List.{List, [], ◌∷◌, ◌++◌, map}
pub use native.Mathlib.Omega.{arith}
