-- ===== src/Base/Int.antt =====
-- `int32_t` values as integers: `pos n` is n, `negsuc n` is -(n + 1).
use Prim.Native.Nat.{ℕ, suc, ◌+◌, ◌-◌, ◌<◌}
use mathlib.Core.Path.{◌≡◌}
use mathlib.Core.Logic.{◌≢◌}
use mathlib.Core.Bool.{Bool, true, false}
use native.Mathlib.Omega.{arith}
use project_my_os.Base.Tests.{ltb, leb, ◌==◌, if◌then◌else◌}

pub data ℤ : Type 0 where
  pos : ℕ → ℤ
  negsuc : ℕ → ℤ

-- The return code of a failed call.
abbrev pub minus_one : ℤ
minus_one = negsuc 0

-- a - b, as an integer.
abbrev pub sub_ℕ : ℕ → ℕ → ℤ
sub_ℕ a b = if leb b a then pos (a - b) else negsuc (b - a - 1)

abbrev pub pos_part : ℤ → ℕ
pos_part (pos n) = n
pos_part (negsuc n) = 0

abbrev pub neg_part : ℤ → ℕ
neg_part (pos n) = 0
neg_part (negsuc n) = suc n

-- a - b on integers.
unfoldable pub ◌-ℤ◌ : ℤ → ℤ → ℤ
a -ℤ b = sub_ℕ (pos_part a + neg_part b) (neg_part a + pos_part b)

infixl 65 ◌-ℤ◌
abbrev pub is_zero : ℤ → Bool
is_zero (pos n) = n == 0
is_zero (negsuc n) = false

abbrev pub is_minus_one : ℤ → Bool
is_minus_one (pos n) = false
is_minus_one (negsuc n) = n == 0

-- The value of a byte read through `int8_t *`: `char` is signed on this target.
unfoldable pub int8 : ℕ → ℤ
int8 c = if ltb c 128 then pos c else sub_ℕ c 256

pub int8-sub-ne_zero : (a b : ℕ) → a < 256 → b < 256 → a ≢ b → is_zero (int8 a -ℤ int8 b) ≡ false
unfolding int8 ◌-ℤ◌
int8-sub-ne_zero a b ha hb n = ground arith

pub int8-sub_self : (a : ℕ) → is_zero (int8 a -ℤ int8 a) ≡ true
unfolding int8 ◌-ℤ◌
int8-sub_self a = ground arith
