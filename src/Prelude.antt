-- ===== src/Prelude.antt =====
-- The names that the other modules share: the libraries', passed on, and those of the children.
mod Tests
mod Lists
mod Strings
mod Slices
mod Bits
pub use Tests.*
pub use Lists.{length, get_or, take, drop, replicate, length-append, take-append-drop, length-drop}
pub use Lists.{All, All-append, text_eq→≡, text_eq_refl}
unfoldable pub use Lists.{all, any, text_eq}
pub use Bits.{bit_or-bytes}
pub use Slices.{slice, drop-slice, drop_at, any-zeros, zeros-any}
pub use Slices.{take-append, drop-append, get_or-append}
pub use Strings.{Text, codes}
unfoldable pub use Strings.{is_space, is_break, lower, is_digit, is_lower_hex, decimal}
unfoldable pub use Strings.{newlines, split_lines}
pub use Prim.Native.Nat.{ℕ, zero, suc, ◌+◌, ◌-◌, ◌*◌, ◌/◌, ◌%◌, ◌^◌, ◌≤◌, ◌<◌, min, max}
pub use mathlib.Core.Path.{◌≡◌, refl, sym, ap, ◌∙◌, subst}
pub use mathlib.Core.Logic.{◌≢◌, ◌↔◌, ◌⊎◌, inl, inr}
pub use mathlib.Core.Bool.{Bool, true, false, ◌&&◌, ◌||◌, not}
pub use mathlib.Core.Option.{Option, none, some}
pub use mathlib.Core.List.{List, [], ◌∷◌, ◌++◌, map, reverse}
pub use native.Mathlib.Omega.{arith}
