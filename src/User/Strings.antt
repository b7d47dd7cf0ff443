-- ===== src/User/Strings.antt =====
-- The string functions of syscalls/ece391support.c against the texts, and against those of
-- student-distrib/lib.c.
use project_my_os.Base.{
  ℕ, zero, suc, ◌+◌, ◌-◌, ◌^◌, ◌<◌, ◌≡◌, ◌≢◌, refl, sym, ap, ap₂, eq→==, ne→==, List, ◌∷◌, ◌∙◌,
  true, false, ◌==◌, if◌then◌else◌, ltb, Option, none, some, ◌>>=◌, Bytes, IsBytes, update, ℤ, pos,
  ◌-ℤ◌, is_zero, int8-sub-ne_zero, int8-sub_self, ==_false→ne, ==→eq, slice_of, Bool-cases, inl,
  inr, arith,
}
use project_my_os.Str.{
  IsString, strlen_loop, strlen, strncmp_loop, strncmp, strrev_loop, swap, strrev, itoa_loop, itoa,
}
use project_my_os.User.Support.{
  ece391_strlen_loop, ece391_strlen, ece391_strncmp_loop, ece391_strncmp, ece391_strrev_loop,
  ece391_strcmp_loop, ece391_strcmp, ece391_strrev, ece391_itoa_loop, ece391_itoa,
}

strlen_loop-eq : (f : ℕ) (s : Bytes) (len : ℕ) → ece391_strlen_loop f s len ≡ strlen_loop f s len
unfolding ece391_strlen_loop strlen_loop
strlen_loop-eq zero s len = refl
strlen_loop-eq (suc f) s len = elim (Bool-cases (s len == 0)) [
  | inl nul ↦ rw (nul, ece391_strlen_loop, strlen_loop) refl
  | inr more ↦ rw (more, ece391_strlen_loop, strlen_loop) (strlen_loop-eq f s (len + 1))
]

pub strlen-eq : (s : Bytes) → ece391_strlen s ≡ strlen s
unfolding ece391_strlen strlen
strlen-eq s = strlen_loop-eq (2 ^ 32) s 0

strrev_loop-eq : (end beg : ℕ) (s : Bytes) → ece391_strrev_loop s beg end ≡ strrev_loop s beg end
unfolding ece391_strrev_loop strrev_loop swap
strrev_loop-eq zero beg s = refl
strrev_loop-eq (suc end) beg s = elim (Bool-cases (ltb beg (suc end))) [
  | inl more ↦
      rw (more, strrev_loop)
        (strrev_loop-eq end (beg + 1) (update (update s (suc end) (s beg)) beg (s (suc end))))
  | inr done ↦ rw (done, strrev_loop) refl
]

strrev-short : (s : Bytes) (n : ℕ) → ltb n 2 ≡ true → strrev_loop s 0 (n - 1) ≡ s
unfolding strrev_loop
strrev-short s n h = let e : n - 1 ≡ 0 = ground (arith, h) in rw e

strrev_some :
    (s : Bytes) (n : ℕ)
    → (if ltb n 2 then some s else some (ece391_strrev_loop s 0 (n - 1)))
      ≡ some (strrev_loop s 0 (n - 1))
strrev_some s n = elim (Bool-cases (ltb n 2)) [
  | inl short ↦ rw short (ap some (sym (strrev-short s n short)))
  | inr long ↦ rw long (ap some (strrev_loop-eq (n - 1) 0 s))
]

strrev_bind :
    (s : Bytes) (o : Option ℕ)
    → (o >>= λ n. if ltb n 2 then some s else some (ece391_strrev_loop s 0 (n - 1)))
      ≡ (elim o [ none ↦ none | some n ↦ some (strrev_loop s 0 (n - 1)) ])
strrev_bind s none = refl
strrev_bind s (some n) = strrev_some s n

pub strrev-eq : (s : Bytes) → ece391_strrev s ≡ strrev s
unfolding ece391_strrev strrev
strrev-eq s = rw (strlen-eq s) (strrev_bind s (strlen s))

itoa_loop-eq :
    (f v radix : ℕ) (buf : Bytes) (k : ℕ)
    → ece391_itoa_loop f v radix buf k ≡ itoa_loop f v radix buf k
unfolding ece391_itoa_loop itoa_loop
itoa_loop-eq zero v radix buf k = refl
itoa_loop-eq (suc f) v radix buf k = elim (Bool-cases (v == 0)) [
  | inl done ↦ rw (done, ece391_itoa_loop, itoa_loop) refl
  | inr more ↦ rw (more, ece391_itoa_loop, itoa_loop) (itoa_loop-eq f _ radix _ (k + 1))
]

-- The user library's itoa and strrev do in memory exactly what the kernel's do, for every value,
-- radix and text, although strrev first turns away the texts of less than two characters.
pub ece391_itoa_lem :
    (value radix : ℕ) (buf : Bytes)
    → (ece391_itoa value buf radix ≡ itoa value buf radix) × (ece391_strrev buf ≡ strrev buf)
unfolding ece391_itoa itoa
ece391_itoa_lem value radix buf =
    (rw (itoa_loop-eq 32 value radix buf 0, strrev-eq) refl, strrev-eq buf)

-- Characters that differ give a difference that is not 0.
differ : (a b : ℕ) → a ≢ b → is_zero (pos a -ℤ pos b) ≡ false
unfolding ◌-ℤ◌
differ a b h = ground arith

next_agree :
    (n : ℕ) (a b : Bytes) (i : ℕ)
    → (a i == b i) ≡ true
    → (a i == 0) ≡ false
    → is_zero (ece391_strncmp_loop n a b (i + 1)) ≡ is_zero (strncmp_loop n a b (i + 1))
    → is_zero (ece391_strncmp_loop (suc n) a b i) ≡ is_zero (strncmp_loop (suc n) a b i)
unfolding ece391_strncmp_loop strncmp_loop
next_agree zero a b i same more ih = rw (same, more, ece391_strncmp_loop, strncmp_loop) refl
next_agree (suc n) a b i same more ih =
    let e : (suc n == 0) ≡ false = ground arith in
    rw (same, more, e, ece391_strncmp_loop, strncmp_loop) ih

strncmp_loop-agree :
    (n : ℕ) (a b : Bytes) (i : ℕ)
    → IsBytes a
    → IsBytes b
    → is_zero (ece391_strncmp_loop n a b i) ≡ is_zero (strncmp_loop n a b i)
unfolding ece391_strncmp_loop strncmp_loop
strncmp_loop-agree zero a b i ba bb = refl
strncmp_loop-agree (suc n) a b i ba bb = elim (Bool-cases (a i == b i)) [
  | inr apart ↦
      rw (apart, ece391_strncmp_loop, strncmp_loop)
        (differ (a i) (b i) (==_false→ne _ _ apart)
          ∙ sym (int8-sub-ne_zero (a i) (b i) (ba i) (bb i) (==_false→ne _ _ apart)))
  | inl same ↦ elim (Bool-cases (a i == 0)) [
    | inl ended ↦
        rw (same, ended, ece391_strncmp_loop, strncmp_loop)
          (sym (rw (sym (==→eq _ _ same)) (int8-sub_self (a i))))
    | inr more ↦ next_agree n a b i same more (strncmp_loop-agree n a b (i + 1) ba bb)
  ]
]

-- The user library's strncmp is 0 exactly when the kernel's is, for any count and any two memories
-- of bytes, although one compares characters as unsigned and the other as signed numbers.
pub ece391_strncmp_lem :
    (a b : Bytes) (n : ℕ)
    → IsBytes a
    → IsBytes b
    → is_zero (ece391_strncmp a b n) ≡ is_zero (strncmp a b n)
unfolding ece391_strncmp strncmp
ece391_strncmp_lem a b n ba bb = strncmp_loop-agree n a b 0 ba bb

true-ne_false : true ≢ false
true-ne_false e = cc

cons-head : {x y : ℕ} {l m : List ℕ} → x ∷ l ≡ y ∷ m → x ≡ y
cons-head e = cc

cons-tail : {x y : ℕ} {l m : List ℕ} → x ∷ l ≡ y ∷ m → l ≡ m
cons-tail e = cc

-- One step of strcmp.
strcmp_loop-apart :
    (f : ℕ) (a b : Bytes) (i : ℕ)
    → a i ≢ b i
    → ece391_strcmp_loop (suc f) a b i ≡ some (pos (a i) -ℤ pos (b i))
unfolding ece391_strcmp_loop
strcmp_loop-apart f a b i h = rw (ne→== (a i) (b i) h, ece391_strcmp_loop) refl

strcmp_loop-ended :
    (f : ℕ) (a b : Bytes) (i : ℕ)
    → a i ≡ b i
    → a i ≡ 0
    → ece391_strcmp_loop (suc f) a b i ≡ some (pos 0)
unfolding ece391_strcmp_loop
strcmp_loop-ended f a b i h z = rw (eq→== (a i) (b i) h, eq→== (a i) 0 z, ece391_strcmp_loop) refl

strcmp_loop-next :
    (f : ℕ) (a b : Bytes) (i : ℕ)
    → a i ≡ b i
    → (a i == 0) ≡ false
    → ece391_strcmp_loop (suc f) a b i ≡ ece391_strcmp_loop f a b (i + 1)
unfolding ece391_strcmp_loop
strcmp_loop-next f a b i h z = rw (eq→== (a i) (b i) h, z, ece391_strcmp_loop) refl

-- A result that is 0 exactly when the two texts are the same.
abbrev Decides : List ℕ → List ℕ → Option ℤ → Type 0
Decides l m o = (d : ℤ) × (o ≡ some d) × (is_zero d ≡ true → l ≡ m) × (l ≡ m → is_zero d ≡ true)

strcmp_loop-Decides :
    (a b : Bytes) (m n : ℕ) (va : IsString a m) (vb : IsString b n) (f p q i : ℕ)
    → m ≡ i + p
    → n ≡ i + q
    → p < f
    → Decides (slice_of a i p) (slice_of b i q) (ece391_strcmp_loop f a b i)
unfolding slice_of
strcmp_loop-Decides a b m n va vb zero p q i em en l = absurd (omega arith)
strcmp_loop-Decides a b m n va vb (suc f) zero zero i em en l =
    let za : a i ≡ 0 = ap a (omega arith) ∙ va.nul in
    let zb : b i ≡ 0 = ap b (omega arith) ∙ vb.nul in
    (pos 0, strcmp_loop-ended f a b i (za ∙ sym zb) za, λ h. refl, λ h. refl)
strcmp_loop-Decides a b m n va vb (suc f) zero (suc q) i em en l =
    let za : a i ≡ 0 = ap a (omega arith) ∙ va.nul in
    let n : a i ≢ b i =
      λ e. true-ne_false (sym (eq→== (b i) 0 (sym e ∙ za)) ∙ vb.chars i (omega arith)) in
    (
      pos (a i) -ℤ pos (b i),
      strcmp_loop-apart f a b i n,
      λ h. absurd (true-ne_false (sym h ∙ differ (a i) (b i) n)),
      λ h. cc,
    )
strcmp_loop-Decides a b m n va vb (suc f) (suc p) zero i em en l =
    let zb : b i ≡ 0 = ap b (omega arith) ∙ vb.nul in
    let n : a i ≢ b i =
      λ e. true-ne_false (sym (eq→== (a i) 0 (e ∙ zb)) ∙ va.chars i (omega arith)) in
    (
      pos (a i) -ℤ pos (b i),
      strcmp_loop-apart f a b i n,
      λ h. absurd (true-ne_false (sym h ∙ differ (a i) (b i) n)),
      λ h. cc,
    )
strcmp_loop-Decides a b m n va vb (suc f) (suc p) (suc q) i em en l =
    elim (Bool-cases (a i == b i)) [
      | inr apart ↦
          let n : a i ≢ b i = ==_false→ne _ _ apart in
          (
            pos (a i) -ℤ pos (b i),
            strcmp_loop-apart f a b i n,
            λ h. absurd (true-ne_false (sym h ∙ differ (a i) (b i) n)),
            λ h. absurd (n (cons-head h)),
          )
      | inl same ↦
          let e : a i ≡ b i = ==→eq _ _ same in
          let (d, runs, there, back) =
            strcmp_loop-Decides a b m n va vb f p q (i + 1) (omega arith) (omega arith)
              (omega arith) in
          (
            d,
            strcmp_loop-next f a b i e (va.chars i (omega arith)) ∙ runs,
            λ h. ap₂ ◌∷◌ e (there h),
            λ h. back (cons-tail h),
          )
    ]

-- strcmp of two NUL-terminated texts returns, and returns 0 exactly when the texts are the same.
pub ece391_strcmp_lem :
    (a b : Bytes) (m n : ℕ)
    → IsString a m
    → IsString b n
    → (d : ℤ) × (ece391_strcmp a b ≡ some d)
      × (is_zero d ≡ true → slice_of a 0 m ≡ slice_of b 0 n)
      × (slice_of a 0 m ≡ slice_of b 0 n → is_zero d ≡ true)
unfolding ece391_strcmp
ece391_strcmp_lem a b m n va vb =
    strcmp_loop-Decides a b m n va vb (2 ^ 32) m n 0 (omega arith) (omega arith) va.fits
