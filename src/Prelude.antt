-- ===== src/Prelude.antt =====
-- The names that all modules share: the libraries', passed on, and those of the children:
-- Boolean tests (Tests), the table operations behind the SQLAlchemy queries (Tables) with their laws
-- (Queries), Python's `sorted(set(names))` (Names), `str` methods (Text), and `str` and `int` (Number).
mod Tests
mod Tables
pub mod Queries
pub mod Names
pub mod Text
pub mod Number
pub mod Pages
pub use Tests.*
pub use Tables.*
pub use Prim.Native.Nat.{ℕ, zero, suc, ◌+◌, ◌-◌, ◌*◌, ◌/◌, ◌≤◌, ◌<◌}
pub use Prim.Native.String.{String, ◌++◌ as ◌<>◌}
pub use mathlib.Core.Path.{◌≡◌, refl, sym, ap, ◌∙◌, subst}
pub use mathlib.Core.Logic.{◌≢◌, ◌↔◌, ◌⊎◌, inl, inr}
pub use mathlib.Core.Bool.{Bool, true, false, not, ◌&&◌, ◌||◌}
pub use mathlib.Core.Option.{Option, none, some}
pub use mathlib.Core.List.{List, [], ◌∷◌, ◌++◌, map}
pub use native.Mathlib.Omega.{arith}
