-- ===== src/Str.antt =====
-- The string functions of student-distrib/lib.c: strlen, strncmp, strcpy, strncpy, strrev, itoa.
-- A `char *` is the function that gives the byte at each index after it. A loop that runs to the
-- NUL takes one round of fuel for each address of the machine, and is `none` past that.
pub mod Laws
pub mod Compare
pub mod Reverse
pub mod Decimal
use project_my_os.Base.{
  ℕ, zero, suc, ◌+◌, ◌-◌, ◌*◌, ◌/◌, ◌%◌, ◌^◌, ◌<◌, ◌≡◌, Bool, true, false, not, ◌||◌, Option, none,
  some, List, [], ◌∷◌, ltb, ◌==◌, if◌then◌else◌, Bytes, update, ℤ, pos, int8, ◌-ℤ◌, get_or,
}

-- `strlen`, from index `len` on.
unfoldable pub strlen_loop : ℕ → Bytes → ℕ → Option ℕ
strlen_loop zero s len = none
strlen_loop (suc f) s len = elim (s len == 0) [
  | true ↦ some len
  | false ↦ strlen_loop f s (len + 1)
]

unfoldable pub strlen : Bytes → Option ℕ
unfolding strlen_loop
strlen s = strlen_loop (2 ^ 32) s 0

-- `strncmp` with `r` rounds left at index `i`.
unfoldable pub strncmp_loop : ℕ → Bytes → Bytes → ℕ → ℤ
strncmp_loop zero s1 s2 i = pos 0
strncmp_loop (suc r) s1 s2 i = elim (not (s1 i == s2 i) || s1 i == 0) [
  | true ↦ int8 (s1 i) -ℤ int8 (s2 i)
  | false ↦ strncmp_loop r s1 s2 (i + 1)
]

unfoldable pub strncmp : Bytes → Bytes → ℕ → ℤ
unfolding strncmp_loop int8 ◌-ℤ◌
strncmp s1 s2 n = strncmp_loop n s1 s2 0

-- `strcpy` from index `i` on. The result is the destination after the call.
unfoldable pub strcpy_loop : ℕ → Bytes → Bytes → ℕ → Option Bytes
strcpy_loop zero dest src i = none
strcpy_loop (suc f) dest src i = elim (src i == 0) [
  | true ↦ some (update dest i 0)
  | false ↦ strcpy_loop f (update dest i (src i)) src (i + 1)
]

unfoldable pub strcpy : Bytes → Bytes → Option Bytes
unfolding strcpy_loop update
strcpy dest src = strcpy_loop (2 ^ 32) dest src 0

-- The second loop of `strncpy`: `r` NULs from index `i` on.
unfoldable pub strncpy_pad : ℕ → Bytes → ℕ → Bytes
strncpy_pad zero dest i = dest
strncpy_pad (suc r) dest i = strncpy_pad r (update dest i 0) (i + 1)

-- The first loop of `strncpy`, `r` bytes before the limit.
unfoldable pub strncpy_copy : ℕ → Bytes → Bytes → ℕ → Bytes
strncpy_copy zero dest src i = dest
strncpy_copy (suc r) dest src i = elim (src i == 0) [
  | true ↦ strncpy_pad (suc r) dest i
  | false ↦ strncpy_copy r (update dest i (src i)) src (i + 1)
]

unfoldable pub strncpy : Bytes → Bytes → ℕ → Bytes
unfolding strncpy_copy strncpy_pad update
strncpy dest src n = strncpy_copy n dest src 0

-- One swap of `strrev`.
unfoldable pub swap : Bytes → ℕ → ℕ → Bytes
swap s beg end = update (update s end (s beg)) beg (s end)

-- The loop of `strrev`: `end` falls by one each round, so it bounds the rounds.
unfoldable pub strrev_loop : Bytes → ℕ → ℕ → Bytes
strrev_loop s beg zero = s
strrev_loop s beg (suc end) = elim (ltb beg (suc end)) [
  | true ↦ strrev_loop (swap s beg (suc end)) (beg + 1) end
  | false ↦ s
]

-- `end` starts at `strlen(s) - 1`. At the empty string that is -1 in the source and 0 here; the
-- loop makes no round either way.
unfoldable pub strrev : Bytes → Option Bytes
unfolding strrev_loop swap update
strrev s = elim (strlen s) [ none ↦ none | some n ↦ some (strrev_loop s 0 (n - 1)) ]

-- The array `lookup`: '0' to '9', then 'A' to 'Z'.
unfoldable pub digit_char : ℕ → ℕ
digit_char i = if ltb i 10 then 48 + i else 55 + i

-- The loop of `itoa` with `f` rounds of fuel: the digits from the lowest on, written from index
-- `k`, and the index after the last.
unfoldable pub itoa_loop : ℕ → ℕ → ℕ → Bytes → ℕ → Bytes × ℕ
itoa_loop zero newval radix buf k = (buf, k)
itoa_loop (suc f) newval radix buf k = elim (newval == 0) [
  | true ↦ (buf, k)
  | false ↦ itoa_loop f (newval / radix) radix (update buf k (digit_char (newval % radix))) (k + 1)
]

-- 32 rounds serve a `uint32_t` at every radix from 2 on.
unfoldable pub itoa : ℕ → Bytes → ℕ → Option Bytes
unfolding digit_char update
itoa value buf radix =
    if value == 0
    then some (update (update buf 0 48) 1 0)
    else let (filled, k) = itoa_loop 32 value radix buf 0 in strrev (update filled k 0)

-- A NUL-terminated string of `n` characters.
pub record IsString (s : Bytes) (n : ℕ) : Type 0 where
  pub nul : s n ≡ 0
  pub chars : (i : ℕ) → i < n → (s i == 0) ≡ false
  pub fits : n < 2 ^ 32

-- The text, with NULs behind it.
abbrev pub bytes_of : List ℕ → Bytes
bytes_of l i = get_or l i 0
