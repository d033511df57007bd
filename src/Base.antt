-- ===== src/Base.antt =====
-- Names that the modules of every part share: the libraries', passed on, and those of the children
-- (Boolean tests, lists as C arrays, arrays as functions, outcomes of a C function, 32-bit words).
mod Tests
mod Lists
mod Arrays
mod Outcomes
mod Words
mod Bits
mod Memory
mod Shifts
pub use Tests.*
pub use Lists.*
pub use Arrays.*
unfoldable pub use Arrays.{tabulate}
pub use Outcomes.*
pub use Words.*
unfoldable pub use Shifts.{first_index, shift_down, shift_up}
pub use Shifts.*
unfoldable pub use Memory.{load, store}
pub use Memory.{Status, success, failure, load-ok, store-ok, store-fault}
unfoldable pub use Bits.{test_bit, set_bit, clear_bit}
pub use Bits.{test_bit-set_bit, test_bit-clear_bit, test_bit_full}
pub use Prim.Native.Nat.{ℕ, zero, suc, ◌+◌, ◌-◌, ◌*◌, ◌/◌, ◌%◌, ◌^◌, ◌≤◌, ◌<◌}
pub use mathlib.Core.Path.{◌≡◌, refl, sym, ap, ap₂, subst, subst₂, ◌∙◌}
pub use mathlib.Core.Logic.{◌≢◌, ◌↔◌, ◌⊎◌, inl, inr}
pub use mathlib.Core.Bool.{Bool, true, false, ◌&&◌, ◌||◌, not}
pub use mathlib.Core.Option.{Option, none, some}
pub use mathlib.Core.List.{List, [], ◌∷◌, ◌++◌, map}
pub use native.Mathlib.Omega.{arith}
unfoldable pub use native.Mathlib.Decide.{dec_lt, ℕ_discrete}
