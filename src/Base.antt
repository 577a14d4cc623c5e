-- ===== src/Base.antt =====
-- The names that the other modules share: the libraries', passed on, and those of the children.
mod Tests
mod Lists
mod Int
mod Errors
mod Text
mod Sort
mod Predicates
pub use Tests.*
pub use Lists.*
pub use Int.*
pub use Predicates.*
pub use Sort.{KeyLe, sort_by-perm, sort_by-InOrder}
unfoldable pub use Sort.{sort_by}
pub use Text.{text_eq_refl, text_eq_sound, is_empty}
unfoldable pub use Text.{text_eq}
pub use Errors.{
  Bytes, Error, Result, invalid_argument, runtime_error, logic_error, system_error, ok, err, ◌>>=◌,
  ◌>>◌, guard, or_throw, Result-cases, ok-injective,
}
unfoldable pub use Errors.{text, what}
pub use Prim.Native.Nat.{ℕ, zero, suc, ◌+◌, ◌-◌, ◌*◌, ◌/◌, ◌%◌, ◌^◌, ◌≤◌, ◌<◌}
pub use mathlib.Core.Path.{◌≡◌, refl, sym, ap, subst, ◌∙◌, fun_ext}
pub use mathlib.Core.Logic.{◌≢◌, ◌↔◌, ◌⊎◌, inl, inr}
pub use mathlib.Core.Bool.{Bool, true, false, not, ◌&&◌, ◌||◌}
pub use mathlib.Core.Option.{Option, none, some}
pub use mathlib.Core.List.{List, [], ◌∷◌, ◌++◌, map, append-nil, append_assoc}
pub use native.Mathlib.Omega.{arith}
