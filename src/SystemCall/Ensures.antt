-- ===== src/SystemCall/Ensures.antt =====
-- What holds of the result of a call, if it returns.
use project_my_os.Base.{◌≡◌, refl, Option, none, some, Bool, true, false, if◌then◌else◌, ◌>>=◌}
use project_my_os.SystemCall.{Outcome, returns, waits, faults, endless, overruns, or_endless, ◌>>>◌}

abbrev pub Ensures {ℓ κ} : {A : Type ℓ} → (A → Type κ) → Outcome A → Type κ
Ensures P (returns a) = P a
Ensures P waits = Unit
Ensures P faults = Unit
Ensures P endless = Unit
Ensures P overruns = Unit

module _ {ℓ κ} {A : Type ℓ} (P : A → Type κ) where
  pub Ensures-returned : (m : Outcome A) (a : A) → Ensures P m → m ≡ returns a → P a
  Ensures-returned m a h e = rw e at h

  pub Ensures-if :
      (b : Bool) (m n : Outcome A) → Ensures P m → Ensures P n → Ensures P (if b then m else n)
  Ensures-if true m n hm hn = hm
  Ensures-if false m n hm hn = hn

module _ {ℓ μ κ ν} {A : Type ℓ} {B : Type μ} (P : A → Type κ) (Q : B → Type ν) where
  -- The first part ensures what the second needs.
  pub Ensures-bind :
      (m : Outcome A) (f : A → Outcome B)
      → Ensures P m
      → ((a : A) → P a → Ensures Q (f a))
      → Ensures Q (m >>> f)
  Ensures-bind (returns a) f hm hf = hf a hm
  Ensures-bind waits f hm hf = tt
  Ensures-bind faults f hm hf = tt
  Ensures-bind endless f hm hf = tt
  Ensures-bind overruns f hm hf = tt

module _ {ℓ μ ν} {A : Type ℓ} {B : Type μ} (Q : B → Type ν) where
  -- Nothing is known of the first part.
  pub Ensures-after :
      (m : Outcome A) (f : A → Outcome B) → ((a : A) → Ensures Q (f a)) → Ensures Q (m >>> f)
  Ensures-after (returns a) f hf = hf a
  Ensures-after waits f hf = tt
  Ensures-after faults f hf = tt
  Ensures-after endless f hf = tt
  Ensures-after overruns f hf = tt

  pub Ensures-or_endless :
      (m : Option A) (f : A → Outcome B)
      → ((a : A) → m ≡ some a → Ensures Q (f a))
      → Ensures Q (or_endless m >>> f)
  Ensures-or_endless none f hf = tt
  Ensures-or_endless (some a) f hf = hf a refl

-- The same for a call whose result may be missing.
abbrev pub EnsuresSome {ℓ κ} : {A : Type ℓ} → (A → Type κ) → Option A → Type κ
EnsuresSome P none = Unit
EnsuresSome P (some a) = P a

module _ {ℓ μ ν} {A : Type ℓ} {B : Type μ} (Q : B → Type ν) where
  pub EnsuresSome-after :
      (m : Option A) (f : A → Option B) → ((a : A) → EnsuresSome Q (f a)) → EnsuresSome Q (m >>= f)
  EnsuresSome-after none f hf = tt
  EnsuresSome-after (some a) f hf = hf a

module _ {ℓ κ} {A : Type ℓ} (P : A → Type κ) where
  pub EnsuresSome-if :
      (b : Bool) (m n : Option A)
      → (b ≡ true → EnsuresSome P m)
      → (b ≡ false → EnsuresSome P n)
      → EnsuresSome P (if b then m else n)
  EnsuresSome-if true m n hm hn = hm refl
  EnsuresSome-if false m n hm hn = hn refl

  pub EnsuresSome-returned : (m : Option A) (a : A) → EnsuresSome P m → m ≡ some a → P a
  EnsuresSome-returned m a h e = rw e at h
