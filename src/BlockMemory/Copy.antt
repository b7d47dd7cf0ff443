-- ===== src/BlockMemory/Copy.antt =====
-- What memcpy and memmove of student-distrib/lib.c leave in memory.
use project_my_os.Base.{
  ℕ, zero, suc, ◌+◌, ◌-◌, ◌*◌, ◌/◌, ◌%◌, ◌^◌, ◌≤◌, ◌<◌, ◌≡◌, ◌⊎◌, inl, inr, sym, ap, ◌∙◌, fun_ext,
  false, not, ◌&&◌, Bool-cases, refl, ltb→lt, ltb, ◌==◌, if◌then◌else◌, Bytes, update, read8,
  update_lem, arith,
}
use native.Mathlib.Decide.{dec_lt}
use project_my_os.BlockMemory.{
  Store, move8, move32, rep_movsl, copy_up, copy_down, memcpy_aligned, memcpy_top, memcpy, memmove,
}

-- `n` bytes from `s` on, as they were, at `d`.
unfoldable pub copied : (d s n : ℕ) → Bytes → Bytes
copied d s n m k = if not (ltb k d) && ltb k (d + n) then m (s + (k - d)) else m k

-- A copy upwards does not write what it has yet to read.
abbrev pub IsUpward : (d s n : ℕ) → Type 0
IsUpward d s n = (d ≤ s) ⊎ (s + n ≤ d)

copied-copied :
    (d s a b : ℕ) (m : Bytes)
    → IsUpward d s (a + b)
    → copied (d + a) (s + a) b (copied d s a m) ≡ copied d s (a + b) m
unfolding copied
copied-copied d s a b m (inl h) = fun_ext (λ k. ground arith)
copied-copied d s a b m (inr h) = fun_ext (λ k. ground arith)

copied-none : (d s : ℕ) (m : Bytes) → copied d s 0 m ≡ m
unfolding copied
copied-none d s m = fun_ext (λ k. ground arith)

-- The next part of a copy, and what is left of it.
copied-then :
    (d s a b n : ℕ) (m : Bytes)
    → IsUpward d s n
    → a + b ≡ n
    → copied (d + a) (s + a) b (copied d s a m) ≡ copied d s n m
copied-then d s a b n m (inl up) e = rw (← e) (copied-copied d s a b m (inl up))
copied-then d s a b n m (inr up) e = rw (← e) (copied-copied d s a b m (inr (omega arith)))

-- One byte, at an address that is inside or outside.
move8_at :
    (m : Bytes) (d s k : ℕ)
    → update m d (m s) k ≡ (if not (ltb k d) && ltb k (d + 1) then m (s + (k - d)) else m k)
move8_at m d s k = elim (dec_lt k d) [
  | yes below ↦ ground (arith, update_lem m d (m s) k)
  | no above ↦ elim (dec_lt d k) [
    | yes past ↦ ground (arith, update_lem m d (m s) k)
    | no at ↦
        let e : k ≡ d = omega arith in
        let e' : s + (d - d) ≡ s = omega arith in
        rw (e, e') (ground (arith, update_lem m d (m s) d))
  ]
]

move8_lem : (m : Bytes) (d s : ℕ) → d + 1 ≤ 2 ^ 32 → s + 1 ≤ 2 ^ 32 → move8 m d s ≡ copied d s 1 m
unfolding move8 copied read8
move8_lem m d s hd hs =
    let ed : d % 2 ^ 32 ≡ d = omega arith in
    let es : s % 2 ^ 32 ≡ s = omega arith in rw (ed, es) (fun_ext (λ k. move8_at m d s k))

four_cases :
    (m : Bytes) (d s i : ℕ)
    → i < 4
    → update
        (update (update (update m d (m s)) (d + 1) (m (s + 1))) (d + 2) (m (s + 2)))
        (d + 3)
        (m (s + 3))
        (d + i)
      ≡ (if not (ltb (d + i) d) && ltb (d + i) (d + 4) then m (s + (d + i - d)) else m (d + i))
unfolding update
four_cases m d s i h = let e : d + i - d ≡ i = omega arith in rw e (ground arith)

four_at :
    (m : Bytes) (d s k : ℕ)
    → update
        (update (update (update m d (m s)) (d + 1) (m (s + 1))) (d + 2) (m (s + 2)))
        (d + 3)
        (m (s + 3))
        k
      ≡ (if not (ltb k d) && ltb k (d + 4) then m (s + (k - d)) else m k)
unfolding update
four_at m d s k = elim (dec_lt k d) [
  | yes below ↦ ground arith
  | no above ↦ elim (dec_lt k (d + 4)) [
    | yes inside ↦
        let a : k ≡ d + (k - d) = omega arith in
        let b : k - d < 4 = omega arith in rw a (four_cases m d s (k - d) b)
    | no past ↦ ground arith
  ]
]

-- The dword move is four byte moves, where no byte is stored before it is read.
move32_lem :
    (m : Bytes) (d s : ℕ)
    → IsUpward d s 4
    → d + 4 ≤ 2 ^ 32
    → s + 4 ≤ 2 ^ 32
    → move32 m d s ≡ copied d s 4 m
unfolding move32 copied read8
move32_lem m d s up hd hs =
    let d0 : d % 2 ^ 32 ≡ d = omega arith in
    let d1 : (d + 1) % 2 ^ 32 ≡ d + 1 = omega arith in
    let d2 : (d + 2) % 2 ^ 32 ≡ d + 2 = omega arith in
    let d3 : (d + 3) % 2 ^ 32 ≡ d + 3 = omega arith in
    let s0 : s % 2 ^ 32 ≡ s = omega arith in
    let s1 : (s + 1) % 2 ^ 32 ≡ s + 1 = omega arith in
    let s2 : (s + 2) % 2 ^ 32 ≡ s + 2 = omega arith in
    let s3 : (s + 3) % 2 ^ 32 ≡ s + 3 = omega arith in
    rw (d0, d1, d2, d3, s0, s1, s2, s3) (fun_ext (λ k. four_at m d s k))

-- A part of an upward copy is one, and so is what is left.
IsUpward-part : (d s n a : ℕ) → IsUpward d s n → a ≤ n → IsUpward d s a
IsUpward-part d s n a (inl up) h = inl up
IsUpward-part d s n a (inr up) h = inr (omega arith)

IsUpward-rest : (d s n a b : ℕ) → IsUpward d s n → a + b ≡ n → IsUpward (d + a) (s + a) b
IsUpward-rest d s n a b (inl up) e = inl (omega arith)
IsUpward-rest d s n a b (inr up) e = inr (omega arith)

rep_movsl_lem :
    (r d s : ℕ) (m : Bytes)
    → IsUpward d s (4 * r)
    → d + 4 * r ≤ 2 ^ 32
    → s + 4 * r ≤ 2 ^ 32
    → rep_movsl r d s m ≡ copied d s (4 * r) m
unfolding rep_movsl
rep_movsl_lem zero d s m up hd hs = sym (copied-none d s m)
rep_movsl_lem (suc r) d s m up hd hs =
    let split : 4 + 4 * r ≡ 4 * suc r = omega arith in
    rep_movsl_lem r (d + 4) (s + 4) (move32 m d s)
      (IsUpward-rest d s (4 * suc r) 4 (4 * r) up split) (omega arith) (omega arith)
    ∙ rw
        (move32_lem m d s (IsUpward-part d s (4 * suc r) 4 up (omega arith)) (omega arith)
          (omega arith))
        (copied-then d s 4 (4 * r) (4 * suc r) m up split)

-- A byte and the copy of the rest.
move8-then :
    (d s n : ℕ) (m : Bytes)
    → IsUpward d s (suc n)
    → d + suc n ≤ 2 ^ 32
    → s + suc n ≤ 2 ^ 32
    → copied (d + 1) (s + 1) n (move8 m d s) ≡ copied d s (suc n) m
move8-then d s n m up hd hs =
    rw (move8_lem m d s (omega arith) (omega arith))
      (copied-then d s 1 n (suc n) m up (omega arith))

copy_up_lem :
    (n d s : ℕ) (m : Bytes)
    → IsUpward d s n
    → d + n ≤ 2 ^ 32
    → s + n ≤ 2 ^ 32
    → copy_up n d s m ≡ copied d s n m
unfolding copy_up
copy_up_lem zero d s m up hd hs = sym (copied-none d s m)
copy_up_lem (suc n) d s m up hd hs =
    copy_up_lem n (d + 1) (s + 1) (move8 m d s) (IsUpward-rest d s (suc n) 1 n up (omega arith))
      (omega arith) (omega arith)
    ∙ move8-then d s n m up hd hs

memcpy_aligned_lem :
    (n d s : ℕ) (st : Store)
    → IsUpward d s n
    → d + n ≤ 2 ^ 32
    → s + n ≤ 2 ^ 32
    → (memcpy_aligned n d s st).bytes ≡ copied d s n st.bytes
unfolding memcpy_aligned
memcpy_aligned_lem n d s st up hd hs =
    let split : 4 * (n / 4) + n % 4 ≡ n = omega arith in
    copy_up_lem (n % 4) (d + 4 * (n / 4)) (s + 4 * (n / 4)) (rep_movsl (n / 4) d s st.bytes)
      (IsUpward-rest d s n (4 * (n / 4)) (n % 4) up split) (omega arith) (omega arith)
    ∙ rw
        (rep_movsl_lem (n / 4) d s st.bytes (IsUpward-part d s n (4 * (n / 4)) up (omega arith))
          (omega arith) (omega arith))
        (copied-then d s (4 * (n / 4)) (n % 4) n st.bytes up split)

memcpy_top_lem :
    (n d s : ℕ) (st : Store)
    → IsUpward d s n
    → d + n ≤ 2 ^ 32
    → s + n ≤ 2 ^ 32
    → (memcpy_top n d s st).bytes ≡ copied d s n st.bytes
unfolding memcpy_top
memcpy_top_lem zero d s st up hd hs = sym (copied-none d s st.bytes)
memcpy_top_lem (suc n) d s st up hd hs = elim (Bool-cases (d % 4 == 0)) [
  | inl aligned ↦ rw aligned (memcpy_aligned_lem (suc n) d s st up hd hs)
  | inr odd ↦ rw odd (
      memcpy_top_lem n (d + 1) (s + 1) (record st { bytes = move8 st.bytes d s })
        (IsUpward-rest d s (suc n) 1 n up (omega arith)) (omega arith) (omega arith)
      ∙ move8-then d s n st.bytes up hd hs)
]

-- memcpy puts at `dest` the `n` bytes that stood from `src` on, and changes no other byte, whatever
-- the alignment, if both blocks lie in 32-bit addresses and the destination starts no later than
-- the source or behind its end.
pub memcpy_lem :
    (dest src n : ℕ) (st : Store) (k : ℕ)
    → (dest ≤ src) ⊎ (src + n ≤ dest)
    → dest + n ≤ 2 ^ 32
    → src + n ≤ 2 ^ 32
    → (memcpy dest src n st).bytes k
      ≡ (if not (ltb k dest) && ltb k (dest + n) then st.bytes (src + (k - dest)) else st.bytes k)
unfolding memcpy copied
memcpy_lem dest src n st k up hd hs =
    ap (λ (m : Bytes). m k) (memcpy_top_lem n dest src st up hd hs)

copied_last_at :
    (d s n : ℕ) (m : Bytes) (k : ℕ)
    → s < d
    → copied d s n (copied (d + n) (s + n) 1 m) k ≡ copied d s (suc n) m k
unfolding copied
copied_last_at d s n m k h = elim (dec_lt k (d + n)) [
  | yes low ↦ ground arith
  | no high ↦ elim (dec_lt (d + n) k) [
    | yes past ↦ ground arith
    | no at ↦
        let e : k ≡ d + n = omega arith in
        let a : d + n - (d + n) ≡ 0 = omega arith in
        let b : s + n + 0 ≡ s + n = omega arith in
        let c : d + n - d ≡ n = omega arith in rw e (rw (a, b, c) (ground arith))
  ]
]

-- A copy downwards: the last byte first, then the rest in front of it.
copied-last :
    (d s n : ℕ) (m : Bytes)
    → s < d
    → copied d s n (copied (d + n) (s + n) 1 m) ≡ copied d s (suc n) m
unfolding copied
copied-last d s n m h = fun_ext (λ k. copied_last_at d s n m k h)

copy_down_lem :
    (n d s : ℕ) (m : Bytes)
    → s < d
    → d + n ≤ 2 ^ 32
    → s + n ≤ 2 ^ 32
    → copy_down n ((d + n + 4294967295) % 2 ^ 32) ((s + n + 4294967295) % 2 ^ 32) m ≡ copied d s n m
unfolding copy_down
copy_down_lem zero d s m h hd hs = sym (copied-none d s m)
copy_down_lem (suc n) d s m h hd hs =
    let ed : (d + suc n + 4294967295) % 2 ^ 32 ≡ d + n = omega arith in
    let es : (s + suc n + 4294967295) % 2 ^ 32 ≡ s + n = omega arith in
    rw (ed, es)
      (copy_down_lem n d s (move8 m (d + n) (s + n)) h (omega arith) (omega arith)
        ∙ rw (move8_lem m (d + n) (s + n) (omega arith) (omega arith)) (copied-last d s n m h))

copied_at :
    (d s n : ℕ) (m m' : Bytes) (k : ℕ)
    → m' ≡ copied d s n m
    → m' k ≡ (if not (ltb k d) && ltb k (d + n) then m (s + (k - d)) else m k)
unfolding copied
copied_at d s n m m' k e = ap (λ (bytes : Bytes). bytes k) e

ltb-le : (a b : ℕ) → ltb a b ≡ false → b ≤ a
ltb-le a b h = ground arith

-- memmove puts at `dest` the `n` bytes that stood from `src` on, and changes no other byte, however
-- the two blocks overlap, if both lie in 32-bit addresses; it leaves the direction flag set exactly
-- when the source starts below the destination.
pub memmove_lem :
    (dest src n : ℕ) (st : Store) (k : ℕ)
    → dest + n ≤ 2 ^ 32
    → src + n ≤ 2 ^ 32
    → ((memmove dest src n st).bytes k ≡ (
        if not (ltb k dest) && ltb k (dest + n) then st.bytes (src + (k - dest)) else st.bytes k))
      × ((memmove dest src n st).counts_down ≡ ltb src dest)
unfolding memmove
memmove_lem dest src n st k hd hs = elim (Bool-cases (ltb src dest)) [
  | inl below ↦ rw below (
    copied_at dest src n st.bytes _ k
        (copy_down_lem n dest src st.bytes (ltb→lt src dest below) hd hs),
    refl,
  )
  | inr above ↦ rw above (
    copied_at dest src n st.bytes _ k
        (copy_up_lem n dest src st.bytes (inl (ltb-le src dest above)) hd hs),
    refl,
  )
]
