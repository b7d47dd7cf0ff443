-- ===== src/Base.antt =====
-- The names that the other modules share: the libraries', passed on, and those of the children.
mod Tests
mod Lists
mod Int
mod Memory
mod Slices
mod Table
pub use Tests.*
pub use Lists.{
  length, get_or, length-slice_of, take-append-drop, length-drop, length-take, take-slice_of,
  drop-slice_of,
}
unfoldable pub use Lists.{slice_of, take, drop}
pub use Slices.{slice_of-eq, slice_of-suc, append-slice_of, slice_of-shift}
pub use Table.{all_below_sound}
unfoldable pub use Table.{all_below}
pub use Int.{
  ℤ, pos, negsuc, minus_one, is_zero, is_minus_one, sub_ℕ, int8-sub-ne_zero, int8-sub_self,
}
unfoldable pub use Int.{◌-ℤ◌, int8}
pub use Memory.{Bytes, IsBytes, update_lem, update-same, update-other, from, zero_loop_lem}
unfoldable pub use Memory.{update, read8, read32, zero_loop}
pub use Prim.Native.Nat.{ℕ, zero, suc, ◌+◌, ◌-◌, ◌*◌, ◌/◌, ◌%◌, ◌^◌, ◌≤◌, ◌<◌, min, max}
pub use Prim.Native.Nat.{bit_and, bit_or}
use Prim.Native.Char.{code}
use Prim.Native.String.{String}
pub use mathlib.Core.Path.{◌≡◌, refl, sym, ap, ap₂, ◌∙◌, fun_ext}
pub use mathlib.Core.Logic.{◌≢◌, ◌⊎◌, inl, inr}
pub use mathlib.Core.Bool.{Bool, true, false, not, ◌&&◌, ◌||◌}
pub use mathlib.Core.Option.{Option, none, some}
pub use mathlib.Core.List.{List, [], ◌∷◌, ◌++◌, map}
pub use native.Mathlib.Omega.{arith}

-- The bytes of a text.
abbrev pub codes : String → List ℕ
codes String.[] = []
codes (String.◌∷◌ c s) = code c ∷ codes s

-- The rounds of a loop `for (i = 0; i < n; i++)` over a signed `n`.
abbrev pub rounds : ℤ → ℕ
rounds (pos n) = n
rounds (negsuc n) = 0
