-- ===== src/Str/Decimal.antt =====
-- itoa of student-distrib/lib.c: what it prints reads back as the number.
use project_my_os.Base.{
  ℕ, zero, suc, ◌+◌, ◌-◌, ◌*◌, ◌/◌, ◌%◌, ◌^◌, ◌≤◌, ◌<◌, ◌≡◌, refl, sym, ◌∙◌, ap, false, some, inl,
  inr, ltb, ◌==◌, if◌then◌else◌, Bool-cases, Bytes, update_lem, update, arith,
}
use native.Mathlib.Nat.{mod-lt, div-add-mod, pow-suc}
use project_my_os.Str.{digit_char, itoa_loop, itoa, IsString}
use project_my_os.Str.Reverse.{strrev_lem}

-- The value of a digit character.
pub digit_value : ℕ → ℕ
digit_value c = if ltb c 58 then c - 48 else c - 55

-- The number that the first `n` characters stand for, most significant first.
pub parse : ℕ → Bytes → ℕ → ℕ
parse radix s zero = 0
parse radix s (suc n) = parse radix s n * radix + digit_value (s n)

-- The number that `n` characters from index `k` stand for, least significant first.
low_first : ℕ → Bytes → ℕ → ℕ → ℕ
low_first radix s k zero = 0
low_first radix s k (suc n) = digit_value (s k) + radix * low_first radix s (k + 1) n

digit_char_lem : (d : ℕ) → d < 36 → (digit_value (digit_char d) ≡ d) × ((digit_char d == 0) ≡ false)
unfolding digit_value digit_char
digit_char_lem d h = (ground arith, ground arith)

low_first-eq :
    (radix : ℕ) (s t : Bytes) (k n : ℕ)
    → ((j : ℕ) → k ≤ j → j < k + n → s j ≡ t j)
    → low_first radix s k n ≡ low_first radix t k n
unfolding low_first
low_first-eq radix s t k zero h = refl
low_first-eq radix s t k (suc n) h = rw (
  h k (omega arith) (omega arith),
  low_first-eq radix s t (k + 1) n (λ j l m. h j (omega arith) (omega arith)),
)

div-lt : (n r p : ℕ) → 2 ≤ r → n < 2 * p → n / r < p
div-lt n r p h l = grind arith

-- What the loop leaves, started at index `k` on `n`.
record Printed (radix n k f : ℕ) (buf : Bytes) (out : Bytes × ℕ) : Type 0 where
  from : k ≤ out.1
  upto : out.1 ≤ k + f
  before : (j : ℕ) → j < k → out.0 j ≡ buf j
  value : low_first radix out.0 k (out.1 - k) ≡ n
  digits : (j : ℕ) → k ≤ j → j < out.1 → (out.0 j == 0) ≡ false

module _ (radix : ℕ) (r2 : 2 ≤ radix) (r36 : radix ≤ 36) where
  Printed-stop : (n f : ℕ) (buf : Bytes) (k : ℕ) → n ≡ 0 → Printed radix n k f buf (buf, k)
  unfolding low_first
  Printed-stop n f buf k h = record {
    from = omega arith;
    upto = omega arith;
    before = λ j l. refl;
    value = let e : k - k ≡ 0 = omega arith in rw (e, h);
    digits = λ j a b. absurd (omega arith);
  }

  Printed-step :
      (n f : ℕ) (buf : Bytes) (k : ℕ) (out : Bytes × ℕ)
      → Printed radix (n / radix) (k + 1) f (update buf k (digit_char (n % radix))) out
      → Printed radix n k (suc f) buf out
  unfolding low_first
  Printed-step n f buf k out p =
      let small : n % radix < 36 = omega (arith, mod-lt n {m = radix} (omega arith)) in
      let written : out.0 k ≡ digit_char (n % radix) =
        ground (arith, p.before k, update_lem buf k (digit_char (n % radix)) k) in
      record {
        from = omega (arith, p.from);
        upto = omega (arith, p.upto);
        before = λ j l. ground (arith, p.before j, update_lem buf k (digit_char (n % radix)) j);
        value =
            let e : out.1 - k ≡ suc (out.1 - (k + 1)) = omega (arith, p.from) in
            rw (e, written, (digit_char_lem (n % radix) small).0, p.value)
              (omega (arith, div-add-mod n radix));
        digits = λ j a b. elim (Bool-cases (j == k)) [
          | inl same ↦
              let same' : j ≡ k = ground arith in
              rw (same', written) (digit_char_lem (n % radix) small).1
          | inr other ↦ p.digits j (ground arith) b
        ];
      }

  itoa_loop_lem :
      (f n : ℕ) (buf : Bytes) (k : ℕ)
      → n < 2 ^ f
      → Printed radix n k f buf (itoa_loop f n radix buf k)
  unfolding itoa_loop
  itoa_loop_lem zero n buf k h = Printed-stop n 0 buf k (omega arith)
  itoa_loop_lem (suc f) n buf k h = elim (Bool-cases (n == 0)) [
    | inl e ↦ rw (e, itoa_loop) (Printed-stop n (suc f) buf k (ground arith))
    | inr e ↦
        rw (e, itoa_loop)
          (Printed-step n f buf k _ (
            itoa_loop_lem f (n / radix) _ (k + 1)
              (div-lt n radix (2 ^ f) r2 (omega (arith, pow-suc 2 f)))))
  ]

  -- Reading a reversed string from its front is reading the original from its back.
  parse-reversed :
      (s out : Bytes) (m n : ℕ)
      → n ≤ m
      → ((k : ℕ) → k < m → out k ≡ s (m - 1 - k))
      → parse radix out n ≡ low_first radix s (m - n) n
  unfolding parse low_first
  parse-reversed s out m zero l h = refl
  parse-reversed s out m (suc n) l h =
      let e : m - suc n + 1 ≡ m - n = omega arith in
      let e' : m - 1 - n ≡ m - suc n = omega arith in
      rw (h n (omega arith), e, e', parse-reversed s out m n (omega arith) h) (omega arith)

  zero-IsString : (buf : Bytes) → IsString (update (update buf 0 48) 1 0) 1
  unfolding update
  zero-IsString buf = record { nul = refl; chars = λ i l. ground arith; fits = omega arith }

  parse_zero : (buf : Bytes) → parse radix (update (update buf 0 48) 1 0) 1 ≡ 0
  unfolding parse digit_value update
  parse_zero buf = omega arith

  Printed-IsString :
      (value : ℕ) (buf : Bytes) (out : Bytes × ℕ)
      → Printed radix value 0 32 buf out
      → IsString (update out.0 out.1 0) out.1
  Printed-IsString value buf out p = record {
    nul = ground (arith, update_lem out.0 out.1 0 out.1);
    chars = λ i l. ground (arith, update_lem out.0 out.1 0 i, p.digits i (omega arith) l);
    fits = omega (arith, p.upto);
  }

  reversed-IsString :
      (s out : Bytes) (n : ℕ)
      → IsString s n
      → ((k : ℕ) → k < n → out k ≡ s (n - 1 - k))
      → ((k : ℕ) → n ≤ k → out k ≡ s k)
      → IsString out n
  reversed-IsString s out n v flipped kept = record {
    nul = rw (kept n (omega arith)) v.nul;
    chars = λ i l. rw (flipped i l) (v.chars (n - 1 - i) (omega arith));
    fits = v.fits;
  }

  Printed-parse :
      (value : ℕ) (buf : Bytes) (filled : Bytes × ℕ) (out : Bytes)
      → Printed radix value 0 32 buf filled
      → ((k : ℕ) → k < filled.1 → out k ≡ update filled.0 filled.1 0 (filled.1 - 1 - k))
      → parse radix out filled.1 ≡ value
  Printed-parse value buf filled out p flipped =
      let n : ℕ = filled.1 in
      let e : n - n ≡ 0 = omega arith in
      let e' : low_first radix filled.0 0 (n - 0) ≡ low_first radix filled.0 0 n =
        ap (low_first radix filled.0 0) (omega arith) in
      parse-reversed (update filled.0 n 0) out n n (omega arith) flipped
      ∙ ap (λ k. low_first radix (update filled.0 n 0) k n) e
      ∙ low_first-eq radix (update filled.0 n 0) filled.0 0 n
          (λ j a b. ground (arith, update_lem filled.0 n 0 j))
      ∙ sym e'
      ∙ p.value

  -- Round trip: for every 32-bit value and every radix from 2 to 36, `itoa` leaves a
  -- NUL-terminated string of at most 32 characters in the buffer, and reading its characters as
  -- digits in that radix gives the value back.
  pub parse-itoa :
      (value : ℕ) (buf : Bytes)
      → value < 2 ^ 32
      → (out : Bytes) × (n : ℕ) × (itoa value buf radix ≡ some out)
        × IsString out n
        × (n ≤ 32)
        × (parse radix out n ≡ value)
  unfolding itoa
  parse-itoa value buf h = elim (Bool-cases (value == 0)) [
    | inl z ↦
        let z' : value ≡ 0 = ground arith in
        (
          update (update buf 0 48) 1 0,
          1,
          rw (z, itoa),
          zero-IsString buf,
          omega arith,
          rw z' (parse_zero buf),
        )
    | inr nz ↦
        let filled = itoa_loop 32 value radix buf 0 in
        let p = itoa_loop_lem 32 value buf 0 h in
        let v = Printed-IsString value buf filled p in
        let (out, e, flipped, kept) = strrev_lem (update filled.0 filled.1 0) filled.1 v in
        (
          out,
          filled.1,
          rw (nz, itoa) e,
          reversed-IsString (update filled.0 filled.1 0) out filled.1 v flipped kept,
          p.upto,
          Printed-parse value buf filled out p flipped,
        )
  ]
