-- ===== src/BlockMemory.antt =====
-- The block memory functions of student-distrib/lib.c: memset, memset_word, memset_dword, memcpy
-- and memmove. They are inline assembly; one function below stands for one loop of it, over the
-- pointer registers and the count. An address is taken modulo 2^32 where memory is used.
pub mod Fill
pub mod Copy
use project_my_os.Base.{
  ℕ, zero, suc, ◌+◌, ◌*◌, ◌/◌, ◌%◌, ◌^◌, Bool, true, false, ltb, ◌==◌, if◌then◌else◌, bit_or, Bytes,
  read8, update,
}

-- Memory, and the direction flag: whether string instructions count down.
pub record Store : Type 0 where
  pub bytes : Bytes
  pub counts_down : Bool

-- A store of `%al`.
unfoldable pub write8 : Bytes → ℕ → ℕ → Bytes
unfolding update
write8 m a v = update m (a % 2 ^ 32) (v % 256)

-- A store of `%eax`, least significant byte first.
unfoldable pub write32 : Bytes → ℕ → ℕ → Bytes
unfolding write8
write32 m a v =
    write8 (write8 (write8 (write8 m a v) (a + 1) (v / 256)) (a + 2) (v / 65536)) (a + 3)
      (v / 16777216)

-- `movb (%esi), %al; movb %al, (%edi)`, and one round of `rep movsb`.
unfoldable pub move8 : Bytes → ℕ → ℕ → Bytes
unfolding update read8
move8 m edi esi = update m (edi % 2 ^ 32) (read8 m esi)

-- One round of `rep movsl`: four bytes are read before four are stored.
unfoldable pub move32 : Bytes → ℕ → ℕ → Bytes
unfolding update read8
move32 m edi esi =
    update
      (update
        (update (update m (edi % 2 ^ 32) (read8 m esi)) ((edi + 1) % 2 ^ 32) (read8 m (esi + 1)))
        ((edi + 2) % 2 ^ 32) (read8 m (esi + 2)))
      ((edi + 3) % 2 ^ 32) (read8 m (esi + 3))

-- `rep stosl`.
unfoldable pub rep_stosl : (ecx edi eax : ℕ) → Bytes → Bytes
rep_stosl zero edi eax m = m
rep_stosl (suc ecx) edi eax m = rep_stosl ecx (edi + 4) eax (write32 m edi eax)

-- `rep stosw`.
unfoldable pub rep_stosw : (ecx edi eax : ℕ) → Bytes → Bytes
rep_stosw zero edi eax m = m
rep_stosw (suc ecx) edi eax m =
    rep_stosw ecx (edi + 2) eax (write8 (write8 m edi eax) (edi + 1) (eax / 256))

-- From `.memset_bottom` on.
unfoldable pub memset_bottom : (edx edi eax : ℕ) → Bytes → Bytes
memset_bottom zero edi eax m = m
memset_bottom (suc edx) edi eax m = memset_bottom edx (edi + 1) eax (write8 m edi eax)

-- From `.memset_aligned` on.
unfoldable pub memset_aligned : (ecx edi eax : ℕ) → Store → Store
unfolding rep_stosl memset_bottom
memset_aligned ecx edi eax st = record {
  bytes = memset_bottom (ecx % 4) (edi + 4 * (ecx / 4)) eax (rep_stosl (ecx / 4) edi eax st.bytes);
  counts_down = false;
}

-- From `.memset_top` on.
unfoldable pub memset_top : (ecx edi eax : ℕ) → Store → Store
unfolding memset_aligned write8
memset_top zero edi eax st = st
memset_top (suc ecx) edi eax st =
    let after_byte = memset_top ecx (edi + 1) eax (record st { bytes = write8 st.bytes edi eax }) in
    if edi % 4 == 0 then memset_aligned (suc ecx) edi eax st else after_byte

-- `c << 24 | c << 16 | c << 8 | c`
unfoldable pub repeated : ℕ → ℕ
repeated c = bit_or (bit_or (bit_or (c * 16777216) (c * 65536)) (c * 256)) c

-- `c` is the bit pattern of the argument.
unfoldable pub memset : (s c n : ℕ) → Store → Store
unfolding memset_top repeated
memset s c n st = memset_top n s (repeated (c % 256)) st

unfoldable pub memset_word : (s c n : ℕ) → Store → Store
unfolding rep_stosw
memset_word s c n st = record { bytes = rep_stosw n s c st.bytes; counts_down = false }

unfoldable pub memset_dword : (s c n : ℕ) → Store → Store
unfolding rep_stosl
memset_dword s c n st = record { bytes = rep_stosl n s c st.bytes; counts_down = false }

-- `rep movsl` with the direction flag clear.
unfoldable pub rep_movsl : (ecx edi esi : ℕ) → Bytes → Bytes
rep_movsl zero edi esi m = m
rep_movsl (suc ecx) edi esi m = rep_movsl ecx (edi + 4) (esi + 4) (move32 m edi esi)

-- From `.memcpy_bottom` on, and `rep movsb` with the direction flag clear.
unfoldable pub copy_up : (count edi esi : ℕ) → Bytes → Bytes
copy_up zero edi esi m = m
copy_up (suc count) edi esi m = copy_up count (edi + 1) (esi + 1) (move8 m edi esi)

-- `rep movsb` with the direction flag set: both pointers wrap as they fall.
unfoldable pub copy_down : (count edi esi : ℕ) → Bytes → Bytes
copy_down zero edi esi m = m
copy_down (suc count) edi esi m =
    copy_down count ((edi + 4294967295) % 2 ^ 32) ((esi + 4294967295) % 2 ^ 32) (move8 m edi esi)

-- From `.memcpy_aligned` on.
unfoldable pub memcpy_aligned : (ecx edi esi : ℕ) → Store → Store
unfolding rep_movsl copy_up
memcpy_aligned ecx edi esi st = record {
  bytes =
      copy_up (ecx % 4) (edi + 4 * (ecx / 4)) (esi + 4 * (ecx / 4))
        (rep_movsl (ecx / 4) edi esi st.bytes);
  counts_down = false;
}

-- From `.memcpy_top` on.
unfoldable pub memcpy_top : (ecx edi esi : ℕ) → Store → Store
unfolding memcpy_aligned move8
memcpy_top zero edi esi st = st
memcpy_top (suc ecx) edi esi st =
    let after_byte =
      memcpy_top ecx (edi + 1) (esi + 1) (record st { bytes = move8 st.bytes edi esi }) in
    if edi % 4 == 0 then memcpy_aligned (suc ecx) edi esi st else after_byte

unfoldable pub memcpy : (dest src n : ℕ) → Store → Store
unfolding memcpy_top
memcpy dest src n st = memcpy_top n dest src st

-- The direction flag is never cleared again after `std`.
unfoldable pub memmove : (dest src n : ℕ) → Store → Store
unfolding copy_up copy_down
memmove dest src n st =
    if ltb src dest
    then record {
      bytes =
          copy_down n ((dest + n + 4294967295) % 2 ^ 32) ((src + n + 4294967295) % 2 ^ 32) st.bytes;
      counts_down = true;
    }
    else record { bytes = copy_up n dest src st.bytes; counts_down = false }
