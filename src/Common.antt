-- ===== src/Common.antt =====
-- Names that every module of the development shares: the libraries', passed on, and those of the
-- children. It models no code of the repository.
mod Tests
mod Lists
mod Keys
mod Maps
mod Equality
mod Formats
unfoldable pub use Tests.*
pub use Lists.*
unfoldable pub use Keys.*
pub use Maps.*
unfoldable pub use Equality.*
unfoldable pub use Formats.*
pub use Prim.Native.Nat.{ℕ, zero, suc, ◌+◌, ◌-◌, ◌*◌, ◌/◌, ◌%◌, ◌^◌, ◌≤◌, ◌<◌}
pub use mathlib.Core.Path.{◌≡◌, refl, sym, ap, ap₂, subst, ◌∙◌}
pub use mathlib.Core.Logic.{◌≢◌, ◌↔◌, ◌⊎◌, inl, inr}
pub use mathlib.Core.Bool.{Bool, true, false, not, ◌&&◌, ◌||◌}
pub use mathlib.Core.Option.{Option, none, some}
pub use mathlib.Core.List.{List, [], ◌∷◌, ◌++◌, map, append_assoc, append-nil}
pub use native.Mathlib.Omega.{arith}
