-- ===== src/Base.antt =====
-- The names that the other modules share: the libraries', passed on, and those of the children.
mod Tests
mod Lists
mod Texts
mod Numbers
mod Totals
mod Int
pub use Tests.*
pub use Lists.*
unfoldable pub use Lists.{select}
unfoldable pub use Texts.{
  text, text_eq, cut, has_byte, lower_byte, lower_bytes, lower_dotted, to_lower, equal_fold,
}
unfoldable pub use Numbers.{digit, format_uint, atoi, format_int, hex_encode, parse_uint}
pub use Texts.*
pub use Numbers.*
pub use Totals.*
pub use Int.*
pub use Prim.Native.Nat.{ℕ, zero, suc, ◌+◌, ◌-◌, ◌*◌, ◌/◌, ◌%◌, ◌^◌, ◌≤◌, ◌<◌}
pub use mathlib.Core.Path.{◌≡◌, refl, sym, ap, ◌∙◌, subst, ◌≡⟨◌⟩◌, ◌∎}
pub use mathlib.Core.Logic.{◌≢◌, ◌↔◌, ◌⊎◌, inl, inr}
pub use mathlib.Core.Bool.{Bool, true, false, not, ◌&&◌, ◌||◌}
pub use mathlib.Core.Option.{Option, none, some}
pub use mathlib.Core.List.{List, [], ◌∷◌, ◌++◌, map, append_assoc, append-nil}
pub use native.Mathlib.Omega.{arith}
