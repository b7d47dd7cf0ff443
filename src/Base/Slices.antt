-- ===== src/Base/Slices.antt =====
-- Lists of the values of a function, under changes of the function.
use Prim.Native.Nat.{ℕ, zero, suc, ◌+◌, ◌≤◌, ◌<◌}
use mathlib.Core.Path.{◌≡◌, refl, sym, ap, ap₂, ◌∙◌}
use mathlib.Core.List.{[], ◌∷◌, ◌++◌}
use native.Mathlib.Omega.{arith}
use project_my_os.Base.Lists.{slice_of}

module _ {ℓ} {A : Type ℓ} where
  pub slice_of-eq :
      (f g : ℕ → A) (a n : ℕ)
      → ((j : ℕ) → a ≤ j → j < a + n → f j ≡ g j)
      → slice_of f a n ≡ slice_of g a n
  unfolding slice_of
  slice_of-eq f g a zero h = refl
  slice_of-eq f g a (suc n) h =
      ap₂ ◌∷◌ (h a (omega arith) (omega arith))
        (slice_of-eq f g (a + 1) n (λ j l m. h j (omega arith) (omega arith)))

  -- One more value goes to the end.
  pub slice_of-suc : (f : ℕ → A) (a n : ℕ) → slice_of f a (suc n) ≡ slice_of f a n ++ f (a + n) ∷ []
  unfolding slice_of
  slice_of-suc f a zero = let e : a + 0 ≡ a = omega arith in rw e
  slice_of-suc f a (suc n) =
      let e : a + suc n ≡ a + 1 + n = omega arith in rw e (ap₂ ◌∷◌ refl (slice_of-suc f (a + 1) n))

  pub append-slice_of :
      (f : ℕ → A) (a m n : ℕ) → slice_of f a m ++ slice_of f (a + m) n ≡ slice_of f a (m + n)
  unfolding slice_of
  append-slice_of f a zero n =
      let e : a + 0 ≡ a = omega arith in let e' : 0 + n ≡ n = omega arith in rw (e, e') refl
  append-slice_of f a (suc m) n =
      let e : a + suc m ≡ a + 1 + m = omega arith in
      let e' : suc m + n ≡ suc (m + n) = omega arith in
      rw (e, e') (ap₂ ◌∷◌ refl (append-slice_of f (a + 1) m n))

  -- The same values from two places on.
  pub slice_of-shift :
      (f g : ℕ → A) (a b n : ℕ)
      → ((j : ℕ) → j < n → f (a + j) ≡ g (b + j))
      → slice_of f a n ≡ slice_of g b n
  unfolding slice_of
  slice_of-shift f g a b zero h = refl
  slice_of-shift f g a b (suc n) h =
      let ea : a + 0 ≡ a = omega arith in
      let eb : b + 0 ≡ b = omega arith in
      ap₂ ◌∷◌ (ap f (sym ea) ∙ h 0 (omega arith) ∙ ap g eb) (
        slice_of-shift f g (a + 1) (b + 1) n (λ j m.
          let e : a + 1 + j ≡ a + suc j = omega arith in
          let e' : b + 1 + j ≡ b + suc j = omega arith in
          ap f e ∙ h (suc j) (omega arith) ∙ ap g (sym e')))
