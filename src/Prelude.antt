-- ===== src/Prelude.antt =====
-- The names that the other modules share: those of the libraries, and those of four children.
mod Tests
mod Lists
mod Results
pub mod Texts
pub mod Table
pub use Tests.*
pub use Lists.{length, take, is_empty, All, All-imp}
pub use Results.{Result, ok, err, ◌>>=◌, ◌>>◌, require, require-ok}
unfoldable pub use Lists.{any, all}
pub use Prim.Native.Nat.{ℕ, zero, suc, ◌+◌, ◌-◌, ◌*◌, ◌/◌, ◌%◌, ◌^◌, ◌≤◌, ◌<◌, min, max}
pub use Prim.Native.String.{String}
pub use mathlib.Core.Path.{◌≡◌, refl, sym, ap, ◌∙◌, subst}
pub use mathlib.Core.Logic.{◌≢◌, ◌↔◌, ◌⊎◌, inl, inr}
pub use mathlib.Core.Bool.{Bool, true, false, not, ◌&&◌, ◌||◌}
pub use mathlib.Core.Option.{Option, none, some}
pub use mathlib.Core.List.{List, [], ◌∷◌, ◌++◌, map}
pub use native.Mathlib.Omega.{arith}
pub use text.Mathlib.Text.{◌==◌ as str_eq}
pub use text.Mathlib.TextEquality.{eq_iff}
