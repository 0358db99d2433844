-- ===== src/Prelude.antt =====
-- The names that the other modules share: the libraries' names, passed on, and the helpers of the
-- children. Text is the native `String`; `==` compares values of any type that has an `Eq` instance.
pub mod Tests
pub mod Lists
pub mod Assoc
pub mod Sets
pub mod Table
pub mod Text
pub mod Utf8
pub mod Int
pub mod Float
pub mod Minimum
pub use Tests.*
unfoldable pub use Lists.*
pub use Prim.Native.Nat.{
  ℕ, zero, suc, ◌+◌, ◌-◌, ◌*◌, ◌/◌, ◌%◌, ◌^◌, ◌≤◌, ◌<◌, compare, Ordering, min, max,
}
pub use Prim.Native.String.{String}
pub use mathlib.Core.Path.{◌≡◌, refl, sym, ap, ◌∙◌, subst, subst₂}
pub use mathlib.Core.Logic.{◌≢◌, ◌↔◌, ◌⊎◌, inl, inr}
pub use mathlib.Core.Bool.{Bool, true, false, not, ◌&&◌, ◌||◌, false≢true}
pub use mathlib.Core.Option.{Option, none, some}
pub use mathlib.Core.List.{List, [], ◌∷◌, ◌++◌, map}
pub use native.Mathlib.Omega.{arith}
