-- ===== src/Base.antt =====
-- The names that the modules share: those of the libraries, passed on, the Boolean tests on numbers,
-- lists measured by numbers, texts (`std::string`) as lists of bytes, and the outcomes of a call.
mod Tests
mod Lists
mod Texts
mod Outcomes
mod Enumerate
mod Table
pub use Prim.Native.Nat.{ℕ, zero, suc, ◌+◌, ◌-◌, ◌*◌, ◌/◌, ◌%◌, ◌^◌, ◌≤◌, ◌<◌, min, bit_and, bit_or}
pub use mathlib.Core.Path.{◌≡◌, refl, sym, ap, subst, ◌∙◌}
pub use mathlib.Core.Logic.{◌≢◌, ◌↔◌, ◌⊎◌, inl, inr, ite, if_pos, if_neg}
pub use mathlib.Core.Bool.{Bool, true, false, not, ◌&&◌, ◌||◌}
pub use mathlib.Core.Option.{Option, none, some}
pub use mathlib.Core.List.{List, [], ◌∷◌, ◌++◌, map, append-nil, append_assoc, map-append}
pub use native.Mathlib.Omega.{arith}
unfoldable pub use native.Mathlib.Decide.{dec_lt, dec_le, ℕ_discrete}
unfoldable pub use Enumerate.{passes}
unfoldable pub use Table.*
pub use Enumerate.{passes_lem}
pub use Tests.*
pub use Lists.*
unfoldable pub use Texts.*
pub use Outcomes.*
