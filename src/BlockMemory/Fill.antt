-- ===== src/BlockMemory/Fill.antt =====
-- What memset and memset_dword of student-distrib/lib.c leave in memory.
use project_my_os.Base.{
  ℕ, zero, suc, ◌+◌, ◌*◌, ◌/◌, ◌%◌, ◌^◌, ◌≤◌, ◌<◌, ◌≡◌, refl, sym, ap, ◌∙◌, inl, inr, fun_ext, true,
  not, ◌&&◌, Bool-cases, ltb, ◌==◌, if◌then◌else◌, Bytes, update_lem, arith, all_below,
  all_below_sound,
}
use project_my_os.BlockMemory.{
  Store, write8, write32, rep_stosl, memset_bottom, memset_aligned, memset_top, repeated, memset,
}

-- `n` bytes of value `c` from address `s` on.
unfoldable pub filled : (s c n : ℕ) → Bytes → Bytes
filled s c n m k = if not (ltb k s) && ltb k (s + n) then c else m k

filled-filled :
    (s c a b : ℕ) (m : Bytes) → filled (s + a) c b (filled s c a m) ≡ filled s c (a + b) m
unfolding filled
filled-filled s c a b m = fun_ext (λ k. ground arith)

filled-none : (s c : ℕ) (m : Bytes) → filled s c 0 m ≡ m
unfolding filled
filled-none s c m = fun_ext (λ k. ground arith)

-- The next part of a fill, and what is left of it.
filled-then :
    (s c a b n : ℕ) (m : Bytes) → a + b ≡ n → filled (s + a) c b (filled s c a m) ≡ filled s c n m
filled-then s c a b n m e = rw (← e) (filled-filled s c a b m)

write8_lem : (m : Bytes) (a v c : ℕ) → a < 2 ^ 32 → v % 256 ≡ c → write8 m a v ≡ filled a c 1 m
unfolding write8 filled
write8_lem m a v c below byte =
    let e : a % 2 ^ 32 ≡ a = omega arith in
    rw (e, byte) (fun_ext (λ k. ground (arith, update_lem m a c k)))

-- A word whose four bytes are `c`.
module _ (v c : ℕ) (byte0 : v % 256 ≡ c) (byte1 : v / 256 % 256 ≡ c) (byte2 : v / 65536 % 256 ≡ c)
    (byte3 : v / 16777216 % 256 ≡ c) where
  write32_lem : (m : Bytes) (a : ℕ) → a + 4 ≤ 2 ^ 32 → write32 m a v ≡ filled a c 4 m
  unfolding write32
  write32_lem m a fits = rw (write8_lem m a v c (omega arith) byte0) (
      rw
        (
          write8_lem (filled a c 1 m) (a + 1) (v / 256) c (omega arith) byte1,
          filled-filled a c 1 1 m,
        )
        (rw
          (
            write8_lem (filled a c (1 + 1) m) (a + 2) (v / 65536) c (omega arith) byte2,
            filled-filled a c 2 1 m,
          )
          (rw (write8_lem (filled a c (2 + 1) m) (a + 3) (v / 16777216) c (omega arith) byte3)
            (filled-filled a c 3 1 m))))

  rep_stosl_lem :
      (r a : ℕ) (m : Bytes) → a + 4 * r ≤ 2 ^ 32 → rep_stosl r a v m ≡ filled a c (4 * r) m
  unfolding rep_stosl
  rep_stosl_lem zero a m fits = sym (filled-none a c m)
  rep_stosl_lem (suc r) a m fits =
      rep_stosl_lem r (a + 4) (write32 m a v) (omega arith)
      ∙ rw (write32_lem m a (omega arith)) (filled-then a c 4 (4 * r) (4 * suc r) m (omega arith))

  memset_bottom_lem :
      (r a : ℕ) (m : Bytes) → a + r ≤ 2 ^ 32 → memset_bottom r a v m ≡ filled a c r m
  unfolding memset_bottom
  memset_bottom_lem zero a m fits = sym (filled-none a c m)
  memset_bottom_lem (suc r) a m fits =
      memset_bottom_lem r (a + 1) (write8 m a v) (omega arith)
      ∙ rw (write8_lem m a v c (omega arith) byte0) (filled-then a c 1 r (suc r) m (omega arith))

  memset_aligned_lem :
      (n a : ℕ) (st : Store)
      → a + n ≤ 2 ^ 32
      → (memset_aligned n a v st).bytes ≡ filled a c n st.bytes
  unfolding memset_aligned
  memset_aligned_lem n a st fits =
      memset_bottom_lem (n % 4) (a + 4 * (n / 4)) (rep_stosl (n / 4) a v st.bytes) (omega arith)
      ∙ rw (rep_stosl_lem (n / 4) a st.bytes (omega arith))
          (filled-then a c (4 * (n / 4)) (n % 4) n st.bytes (omega arith))

  memset_top_lem :
      (n a : ℕ) (st : Store) → a + n ≤ 2 ^ 32 → (memset_top n a v st).bytes ≡ filled a c n st.bytes
  unfolding memset_top
  memset_top_lem zero a st fits = sym (filled-none a c st.bytes)
  memset_top_lem (suc n) a st fits = elim (Bool-cases (a % 4 == 0)) [
    | inl aligned ↦ rw aligned (memset_aligned_lem (suc n) a st fits)
    | inr odd ↦ rw odd (
        memset_top_lem n (a + 1) (record st { bytes = write8 st.bytes a v }) (omega arith)
        ∙ rw (write8_lem st.bytes a v c (omega arith) byte0)
            (filled-then a c 1 n (suc n) st.bytes (omega arith)))
  ]

-- The multiplication stands for the shifts and ors, on every byte.
repeated_table : all_below 256 (λ c. repeated c == c * 16843009) ≡ true
unfolding all_below repeated
repeated_table = refl

repeated_lem : (c : ℕ) → c < 256 → repeated c ≡ c * 16843009
repeated_lem c h =
    ground (arith, all_below_sound 256 (λ (c : ℕ). repeated c == c * 16843009) c repeated_table)

-- memset stores the low byte of `c` into the `n` bytes from `s` on and changes no other byte,
-- whatever the alignment of `s`, if those addresses fit in 32 bits.
pub memset_lem :
    (s c n : ℕ) (st : Store) (k : ℕ)
    → s + n ≤ 2 ^ 32
    → (memset s c n st).bytes k ≡ (if not (ltb k s) && ltb k (s + n) then c % 256 else st.bytes k)
unfolding memset filled
memset_lem s c n st k fits =
    let e : repeated (c % 256) ≡ c % 256 * 16843009 = repeated_lem (c % 256) (omega arith) in
    rw e (
      ap (λ (m : Bytes). m k)
        (memset_top_lem (c % 256 * 16843009) (c % 256) (omega arith) (omega arith) (omega arith)
          (omega arith) n s st fits))
