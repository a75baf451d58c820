-- ===== src/Prelude.antt =====
-- The names that the other modules share: the libraries', passed on, and those of the children.
mod Tests
mod Lists
mod Digits
mod Int
mod Words
pub use Tests.*
pub use Lists.*
pub use Prim.Native.Nat.{
  ℕ, zero, suc, ◌+◌, ◌-◌, ◌*◌, ◌/◌, ◌%◌, ◌^◌, ◌≤◌, ◌<◌, min, max, bit_and, bit_or, bit_xor,
}
pub use mathlib.Core.Path.{◌≡◌, refl, sym, ap, ap₂, subst, ◌∙◌}
pub use mathlib.Core.Logic.{◌≢◌, ◌↔◌, ◌⊎◌, inl, inr}
pub use mathlib.Core.Bool.{Bool, true, false, ◌&&◌, ◌||◌, not}
pub use mathlib.Core.Option.{Option, none, some}
pub use mathlib.Core.List.{List, [], ◌∷◌, ◌++◌, map, append-nil, append_assoc}
pub use native.Mathlib.Omega.{arith}
unfoldable pub use native.Mathlib.Decide.{dec_lt, ℕ_discrete}
pub use Int.{
  eqb_ℤ_sym, ℤ, pos, negsuc, pos_part, neg_part, eqb_ℤ_iff, eqb_ℤ_refl, ltb_ℤ_irrefl, ltb_ℤ_trans,
  ltb_ℤ_asymm, ltb_ℤ-eqb_ℤ, ltb_ℤ_connex, fits_i64,
}
unfoldable pub use Int.{ltb_ℤ, eqb_ℤ, sub_ℤ}
pub use Words.*
pub use Digits.{
  bit_xor_cancel, bit_xor_zero, bit_xor-lt, bit_xor-shift, doubled, doubled-pos, bit_and-mask,
}
