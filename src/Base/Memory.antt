-- ===== src/Base/Memory.antt =====
-- Memory as a function from addresses (or from an index after a pointer) to bytes.
use Prim.Native.Nat.{ℕ, ◌+◌, ◌*◌, ◌%◌, ◌^◌, ◌<◌, zero, suc}
use mathlib.Core.Path.{◌≡◌, refl}
use mathlib.Core.Logic.{◌≢◌}
use mathlib.Core.Bool.{not, ◌&&◌}
use native.Mathlib.Omega.{arith}
use project_my_os.Base.Tests.{eq→==, ne→==, ltb, ◌==◌, if◌then◌else◌}

abbrev pub Bytes : Type 0
Bytes = ℕ → ℕ

abbrev pub IsBytes : Bytes → Type 0
IsBytes m = (a : ℕ) → m a < 256

module _ {ℓ} {A : Type ℓ} where
  unfoldable pub update : (ℕ → A) → ℕ → A → ℕ → A
  update f a v k = if k == a then v else f k

  pub update_lem :
      (f : ℕ → A) (a : ℕ) (v : A) (k : ℕ) → update f a v k ≡ (if k == a then v else f k)
  unfolding update
  update_lem f a v k = refl

  pub update-same : (f : ℕ → A) (a : ℕ) (v : A) → update f a v a ≡ v
  unfolding update
  update-same f a v = rw (eq→== a a refl)

  pub update-other : (f : ℕ → A) (a : ℕ) (v : A) (k : ℕ) → k ≢ a → update f a v k ≡ f k
  unfolding update
  update-other f a v k h = rw (ne→== k a h)

-- `p[i]` as a pointer of its own: the bytes from index `i` on.
abbrev pub from : Bytes → ℕ → Bytes
from s i j = s (i + j)

-- A load at a 32-bit address; the address computation wraps.
unfoldable pub read8 : Bytes → ℕ → ℕ
read8 m a = m (a % 2 ^ 32)

-- A little-endian `uint32_t` load.
unfoldable pub read32 : Bytes → ℕ → ℕ
read32 m a =
    read8 m a + 256 * read8 m (a + 1) + 65536 * read8 m (a + 2) + 16777216 * read8 m (a + 3)

-- `for (; i < n; i++) m[i] = 0`, with `r` rounds left.
unfoldable pub zero_loop : ℕ → ℕ → Bytes → Bytes
zero_loop zero i m = m
zero_loop (suc r) i m = zero_loop r (i + 1) (update m i 0)

pub zero_loop_lem :
    (r i : ℕ) (m : Bytes) (k : ℕ)
    → zero_loop r i m k ≡ (if not (ltb k i) && ltb k (i + r) then 0 else m k)
unfolding zero_loop
zero_loop_lem zero i m k = ground arith
zero_loop_lem (suc r) i m k =
    ground (arith, zero_loop_lem r (i + 1) (update m i 0) k, update_lem m i 0 k)
