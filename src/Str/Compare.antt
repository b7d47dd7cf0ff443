-- ===== src/Str/Compare.antt =====
-- strncmp of student-distrib/lib.c on two NUL-terminated strings, over the longer of the two.
use project_my_os.Base.{
  ℕ, zero, suc, ◌+◌, ◌≡◌, refl, ◌≢◌, max, true, false, ◌==◌, Bytes, IsBytes, slice_of, is_zero,
  int8-sub-ne_zero, arith,
}
use project_my_os.Str.{strncmp_loop, strncmp, IsString}

strncmp_loop-ne :
    (r : ℕ) (a b : Bytes) (i : ℕ)
    → IsBytes a
    → IsBytes b
    → a i ≢ b i
    → is_zero (strncmp_loop (suc r) a b i) ≡ false
unfolding strncmp_loop
strncmp_loop-ne r a b i ba bb n =
    let e : (a i == b i) ≡ false = ground arith in
    rw (e, strncmp_loop) (int8-sub-ne_zero (a i) (b i) (ba i) (bb i) n)

strncmp_loop-eq :
    (r : ℕ) (a b : Bytes) (i : ℕ)
    → a i ≡ b i
    → (a i == 0) ≡ false
    → strncmp_loop (suc r) a b i ≡ strncmp_loop r a b (i + 1)
unfolding strncmp_loop
strncmp_loop-eq r a b i e z =
    let e' : (a i == b i) ≡ true = ground arith in rw (e', z, strncmp_loop)

module _ (a b : Bytes) (m n : ℕ) (ba : IsBytes a) (bb : IsBytes b) where
  strncmp_loop-zero :
      (r p q i : ℕ)
      → IsString a m
      → IsString b n
      → m ≡ i + p
      → n ≡ i + q
      → r ≡ max p q
      → is_zero (strncmp_loop r a b i) ≡ true
      → slice_of a i p ≡ slice_of b i q
  unfolding slice_of
  strncmp_loop-zero r zero zero i va vb em en er h = refl
  strncmp_loop-zero zero zero (suc q) i va vb em en er h = absurd (omega arith)
  strncmp_loop-zero (suc r) zero (suc q) i va vb em en er h =
      ground (arith, va.nul, vb.chars i (omega arith), strncmp_loop-ne r a b i ba bb)
  strncmp_loop-zero zero (suc p) q i va vb em en er h = absurd (omega arith)
  strncmp_loop-zero (suc r) (suc p) zero i va vb em en er h =
      ground (arith, vb.nul, va.chars i (omega arith), strncmp_loop-ne r a b i ba bb)
  strncmp_loop-zero (suc r) (suc p) (suc q) i va vb em en er h = ground (
    arith,
    va.chars i (omega arith),
    strncmp_loop-ne r a b i ba bb,
    strncmp_loop-eq r a b i,
    strncmp_loop-zero r p q (i + 1) va vb (omega arith) (omega arith) (omega arith),
  )

  strncmp_loop-same :
      (r p q i : ℕ)
      → IsString a m
      → IsString b n
      → m ≡ i + p
      → n ≡ i + q
      → r ≡ max p q
      → slice_of a i p ≡ slice_of b i q
      → is_zero (strncmp_loop r a b i) ≡ true
  unfolding slice_of strncmp_loop
  strncmp_loop-same zero p q i va vb em en er h = refl
  strncmp_loop-same (suc r) zero zero i va vb em en er h = absurd (omega arith)
  strncmp_loop-same (suc r) zero (suc q) i va vb em en er h = ground arith
  strncmp_loop-same (suc r) (suc p) zero i va vb em en er h = ground arith
  strncmp_loop-same (suc r) (suc p) (suc q) i va vb em en er h = ground (
    arith,
    va.chars i (omega arith),
    strncmp_loop-eq r a b i,
    strncmp_loop-same r p q (i + 1) va vb (omega arith) (omega arith) (omega arith),
  )

  -- Compared over the longer of the two lengths, two strings of bytes give zero exactly when they
  -- are the same text.
  pub strncmp-zero :
      IsString a m
      → IsString b n
      → (is_zero (strncmp a b (max m n)) ≡ true → slice_of a 0 m ≡ slice_of b 0 n)
        × (slice_of a 0 m ≡ slice_of b 0 n → is_zero (strncmp a b (max m n)) ≡ true)
  unfolding strncmp
  strncmp-zero va vb = (
    strncmp_loop-zero (max m n) m n 0 va vb (omega arith) (omega arith) refl,
    strncmp_loop-same (max m n) m n 0 va vb (omega arith) (omega arith) refl,
  )
