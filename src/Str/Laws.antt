-- ===== src/Str/Laws.antt =====
-- What strlen, strcpy and strncpy of student-distrib/lib.c do on a NUL-terminated string.
use project_my_os.Base.{
  ℕ, zero, suc, ◌+◌, ◌^◌, ◌≤◌, ◌<◌, ◌≡◌, refl, Bool, true, false, ◌&&◌, not, some, List, [], ◌∷◌,
  ◌∙◌, ap, inl, inr, ltb, ◌==◌, if◌then◌else◌, Bool-cases, Bytes, update, update_lem, length, arith,
  ==→eq,
}
use project_my_os.Str.{
  strlen_loop, strlen, strcpy_loop, strcpy, strncpy_pad, strncpy_copy, strncpy, IsString, bytes_of,
}

strlen_loop_lem :
    (f : ℕ) (s : Bytes) (n i : ℕ) → IsString s n → i ≤ n → n < f + i → strlen_loop f s i ≡ some n
unfolding strlen_loop
strlen_loop_lem zero s n i v h l = absurd (omega arith)
strlen_loop_lem (suc f) s n i v h l = elim (Bool-cases (ltb i n)) [
  | inl lt ↦
      rw (v.chars i (ground arith), strlen_loop)
        (strlen_loop_lem f s n (i + 1) v (ground arith) (omega arith))
  | inr ge ↦ let e : i ≡ n = ground arith in rw (e, v.nul, strlen_loop) (ap some e)
]

-- `strlen` finds the NUL that ends the string.
pub strlen_lem : (s : Bytes) (n : ℕ) → IsString s n → strlen s ≡ some n
unfolding strlen
strlen_lem s n v = strlen_loop_lem (2 ^ 32) s n 0 v (omega arith) (omega (arith, v.fits))

strcpy_loop_step :
    (f : ℕ) (dest src : Bytes) (i : ℕ)
    → (src i == 0) ≡ false
    → strcpy_loop (suc f) dest src i ≡ strcpy_loop f (update dest i (src i)) src (i + 1)
unfolding strcpy_loop
strcpy_loop_step f dest src i h = rw (h, strcpy_loop)

strcpy_loop_end :
    (f : ℕ) (dest src : Bytes) (i : ℕ)
    → src i ≡ 0
    → strcpy_loop (suc f) dest src i ≡ some (update dest i 0)
unfolding strcpy_loop
strcpy_loop_end f dest src i h = rw (h, strcpy_loop)

strcpy_loop_lem :
    (f : ℕ) (dest src : Bytes) (n i : ℕ)
    → IsString src n
    → i ≤ n
    → n < f + i
    → (out : Bytes) × (strcpy_loop f dest src i ≡ some out)
      × ((k : ℕ) → i ≤ k → k ≤ n → out k ≡ src k)
      × ((k : ℕ) → k < i → out k ≡ dest k)
      × ((k : ℕ) → n < k → out k ≡ dest k)
unfolding strcpy_loop
strcpy_loop_lem zero dest src n i v h l = absurd (omega arith)
strcpy_loop_lem (suc f) dest src n i v h l = elim (Bool-cases (ltb i n)) [
  | inl lt ↦
      let (out, e, inside, before, after) =
        strcpy_loop_lem f (update dest i (src i)) src n (i + 1) v (ground arith) (omega arith) in
      (
        out,
        strcpy_loop_step f dest src i (v.chars i (ground arith)) ∙ e,
        λ k a b. elim (Bool-cases (k == i)) [
          | inl same ↦ ground (arith, before k, update_lem dest i (src i) k, ==→eq k i same)
          | inr other ↦ inside k (ground arith) b
        ],
        λ k a. ground (arith, before k, update_lem dest i (src i) k),
        λ k a. ground (arith, after k a, update_lem dest i (src i) k),
      )
  | inr ge ↦
      let e : i ≡ n = ground arith in
      (
        update dest i 0,
        strcpy_loop_end f dest src i (rw e v.nul),
        λ k a b. ground (arith, update_lem dest i 0 k, v.nul),
        λ k a. ground (arith, update_lem dest i 0 k),
        λ k a. ground (arith, update_lem dest i 0 k),
      )
]

-- `strcpy` copies the string with its NUL, and nothing else changes.
pub strcpy_lem :
    (dest src : Bytes) (n : ℕ)
    → IsString src n
    → (out : Bytes) × (strcpy dest src ≡ some out)
      × ((k : ℕ) → k ≤ n → out k ≡ src k)
      × ((k : ℕ) → n < k → out k ≡ dest k)
unfolding strcpy
strcpy_lem dest src n v =
    let (out, e, inside, before, after) =
      strcpy_loop_lem (2 ^ 32) dest src n 0 v (omega arith) (omega (arith, v.fits)) in
    (out, e, λ k. inside k (omega arith), after)

strncpy_pad_lem :
    (r : ℕ) (dest : Bytes) (i k : ℕ)
    → strncpy_pad r dest i k ≡ (if not (ltb k i) && ltb k (i + r) then 0 else dest k)
unfolding strncpy_pad
strncpy_pad_lem zero dest i k = ground arith
strncpy_pad_lem (suc r) dest i k =
    ground (arith, strncpy_pad_lem r (update dest i 0) (i + 1) k, update_lem dest i 0 k)

strncpy_copy_lem :
    (r : ℕ) (dest src : Bytes) (n i k : ℕ)
    → IsString src n
    → i ≤ n
    → strncpy_copy r dest src i k
      ≡ (if not (ltb k i) && ltb k (i + r) then if ltb k n then src k else 0 else dest k)
unfolding strncpy_copy
strncpy_copy_lem zero dest src n i k v h = ground arith
strncpy_copy_lem (suc r) dest src n i k v h = elim (Bool-cases (ltb i n)) [
  | inl lt ↦
      rw (v.chars i (ground arith), strncpy_copy)
        (ground (
          arith,
          strncpy_copy_lem r (update dest i (src i)) src n (i + 1) k v,
          update_lem dest i (src i) k,
        ))
  | inr ge ↦
      let e : i ≡ n = ground arith in
      rw (e, v.nul, strncpy_copy) (ground (arith, strncpy_pad_lem (suc r) dest n k))
]

-- `strncpy` writes exactly the first `n` bytes of the destination: the string, then NULs. It
-- writes no NUL behind a string of `n` characters or more.
pub strncpy_lem :
    (dest src : Bytes) (len n k : ℕ)
    → IsString src len
    → strncpy dest src n k ≡ (if ltb k n then if ltb k len then src k else 0 else dest k)
unfolding strncpy
strncpy_lem dest src len n k v = ground (arith, strncpy_copy_lem n dest src len 0 k v (omega arith))

-- A test that a text holds no NUL.
unfoldable pub nonzero : List ℕ → Bool
nonzero [] = true
nonzero (c ∷ cs) = not (c == 0) && nonzero cs

bytes_of-chars :
    (l : List ℕ) (i : ℕ) → nonzero l ≡ true → i < length l → (bytes_of l i == 0) ≡ false
unfolding nonzero
bytes_of-chars [] i h lt = absurd (omega arith)
bytes_of-chars (c ∷ cs) zero h lt = ground arith
bytes_of-chars (c ∷ cs) (suc i) h lt = bytes_of-chars cs i (ground arith) (omega arith)

bytes_of-nul : (l : List ℕ) → bytes_of l (length l) ≡ 0
bytes_of-nul [] = refl
bytes_of-nul (c ∷ cs) = bytes_of-nul cs

pub bytes_of-IsString :
    (l : List ℕ) → nonzero l ≡ true → length l < 2 ^ 32 → IsString (bytes_of l) (length l)
bytes_of-IsString l h f = record {
  nul = bytes_of-nul l;
  chars = λ i lt. bytes_of-chars l i h lt;
  fits = f;
}
