-- ===== src/Base/Lists.antt =====
-- Lists measured and indexed by native numbers, and lists of the values of a function.
use Prim.Native.Nat.{ℕ, zero, suc, ◌+◌, ◌-◌, min}
use mathlib.Core.Path.{◌≡◌, refl, ap}
use native.Mathlib.Omega.{arith}
use mathlib.Core.List.{List, [], ◌∷◌, ◌++◌}

module _ {ℓ} {A : Type ℓ} where
  abbrev pub length : List A → ℕ
  length [] = 0
  length (x ∷ xs) = suc (length xs)

  abbrev pub get_or : List A → ℕ → A → A
  get_or [] i d = d
  get_or (x ∷ xs) zero d = x
  get_or (x ∷ xs) (suc i) d = get_or xs i d

  -- `f a, f (a + 1), …`, `n` values.
  unfoldable pub slice_of : (ℕ → A) → ℕ → ℕ → List A
  slice_of f a zero = []
  slice_of f a (suc n) = f a ∷ slice_of f (a + 1) n

  pub length-slice_of : (f : ℕ → A) (a n : ℕ) → length (slice_of f a n) ≡ n
  unfolding slice_of
  length-slice_of f a zero = refl
  length-slice_of f a (suc n) = ap suc (length-slice_of f (a + 1) n)

  unfoldable pub take : ℕ → List A → List A
  take zero xs = []
  take (suc n) [] = []
  take (suc n) (x ∷ xs) = x ∷ take n xs

  unfoldable pub drop : ℕ → List A → List A
  drop zero xs = xs
  drop (suc n) [] = []
  drop (suc n) (x ∷ xs) = drop n xs

  pub take-append-drop : (n : ℕ) (xs : List A) → take n xs ++ drop n xs ≡ xs
  unfolding take drop
  take-append-drop zero xs = refl
  take-append-drop (suc n) [] = refl
  take-append-drop (suc n) (x ∷ xs) = ap (λ rest. x ∷ rest) (take-append-drop n xs)

  pub length-drop : (n : ℕ) (xs : List A) → length (drop n xs) ≡ length xs - n
  unfolding drop
  length-drop zero xs = omega arith
  length-drop (suc n) [] = omega arith
  length-drop (suc n) (x ∷ xs) = omega (arith, length-drop n xs)

  pub length-take : (n : ℕ) (xs : List A) → length (take n xs) ≡ min n (length xs)
  unfolding take
  length-take zero xs = omega arith
  length-take (suc n) [] = omega arith
  length-take (suc n) (x ∷ xs) = omega (arith, length-take n xs)

  pub take-slice_of : (f : ℕ → A) (a n m : ℕ) → take m (slice_of f a n) ≡ slice_of f a (min m n)
  unfolding take slice_of
  take-slice_of f a n zero = let e : min 0 n ≡ 0 = omega arith in rw e
  take-slice_of f a zero (suc m) = let e : min (suc m) 0 ≡ 0 = omega arith in rw e
  take-slice_of f a (suc n) (suc m) =
      let e : min (suc m) (suc n) ≡ suc (min m n) = omega arith in
      rw e (ap (λ rest. f a ∷ rest) (take-slice_of f (a + 1) n m))

  pub drop-slice_of :
      (f : ℕ → A) (a n m : ℕ) → drop m (slice_of f a n) ≡ slice_of f (a + min m n) (n - min m n)
  unfolding drop slice_of
  drop-slice_of f a n zero =
      let e : min 0 n ≡ 0 = omega arith in
      let e' : n - 0 ≡ n = omega arith in let e'' : a + 0 ≡ a = omega arith in rw (e, e', e'')
  drop-slice_of f a zero (suc m) = let e : 0 - min (suc m) 0 ≡ 0 = omega arith in rw e
  drop-slice_of f a (suc n) (suc m) =
      let e : a + min (suc m) (suc n) ≡ a + 1 + min m n = omega arith in
      let e' : suc n - min (suc m) (suc n) ≡ n - min m n = omega arith in
      rw (e, e') (drop-slice_of f (a + 1) n m)
