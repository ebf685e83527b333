-- ===== src/Base.antt =====
-- The names that the components share: the libraries' own, passed on, and those of the children
-- (Boolean tests, arrays, tables of slots, signed integers), with the error numbers of the C
-- library and of motor.h.
mod Tests
mod Lists
pub mod Slots
pub mod Int
pub mod Text
pub use Text.{ascii, fit, Number}
unfoldable pub use Text.{strtol, print_int}
pub use Int.{
  ℤ, pos, negsuc, neg, wrap32, pos_part, neg_part, sub_ℕ, unsigned64, signed64, eqb_ℤ, ltb_ℤ,
}
unfoldable pub use Int.{◌+ℤ◌, ◌-ℤ◌, ◌*ℤ◌, ◌/ℤ◌}
pub use Tests.*
pub use Lists.*
pub use Prim.Native.Nat.{ℕ, zero, suc, ◌+◌, ◌-◌, ◌*◌, ◌/◌, ◌%◌, ◌^◌, ◌≤◌, ◌<◌}
pub use mathlib.Core.Path.{◌≡◌, refl, sym, ap, ap₂, ◌∙◌, subst}
pub use mathlib.Core.Logic.{◌≢◌, ◌↔◌, ◌⊎◌, inl, inr}
pub use mathlib.Core.Bool.{Bool, true, false, not, ◌&&◌, ◌||◌}
pub use mathlib.Core.Option.{Option, none, some}
pub use mathlib.Core.List.{List, [], ◌∷◌, ◌++◌, map}
pub use native.Mathlib.Omega.{arith}
unfoldable pub use native.Mathlib.Decide.{dec_lt, ℕ_discrete}

abbrev pub enoent : ℕ
enoent = 2

abbrev pub eio : ℕ
eio = 5

abbrev pub e2big : ℕ
e2big = 7

abbrev pub enomem : ℕ
enomem = 12

abbrev pub ebusy : ℕ
ebusy = 16

abbrev pub einval : ℕ
einval = 22

abbrev pub emsgsize : ℕ
emsgsize = 90

abbrev pub enotsup : ℕ
enotsup = 95

abbrev pub er_no_units : ℕ
er_no_units = 1001

abbrev pub er_no_scale : ℕ
er_no_scale = 1002

abbrev pub er_bad_units : ℕ
er_bad_units = 1003

abbrev pub er_cant_convert : ℕ
er_cant_convert = 1004

abbrev pub er_too_many : ℕ
er_too_many = 1005
