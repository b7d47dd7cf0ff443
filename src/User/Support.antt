-- ===== src/User/Support.antt =====
-- The library of the user programs, syscalls/ece391support.c. Its characters are unsigned.
use project_my_os.Base.{
  ℕ, zero, suc, ◌+◌, ◌-◌, ◌/◌, ◌%◌, ◌^◌, true, false, ◌||◌, Option, none, some, ◌==◌, if◌then◌else◌,
  ◌>>=◌, Bytes, update, ℤ, pos, ◌-ℤ◌, ltb,
}
use project_my_os.Str.{digit_char}
use project_my_os.SystemCall.{Outcome, returns, or_endless, ◌>>>◌}
use project_my_os.User.{System}

-- `for (len = 0; '\0' != *s; s++, len++);`
unfoldable pub ece391_strlen_loop : ℕ → Bytes → ℕ → Option ℕ
ece391_strlen_loop zero s len = none
ece391_strlen_loop (suc f) s len = elim (s len == 0) [
  | true ↦ some len
  | false ↦ ece391_strlen_loop f s (len + 1)
]

unfoldable pub ece391_strlen : Bytes → Option ℕ
unfolding ece391_strlen_loop
ece391_strlen s = ece391_strlen_loop (2 ^ 32) s 0

-- `while ('\0' != (*dst++ = *src++));` within one memory, so that the two texts may overlap.
unfoldable pub ece391_strcpy_loop : ℕ → Bytes → ℕ → ℕ → Option Bytes
ece391_strcpy_loop zero m dst src = none
ece391_strcpy_loop (suc f) m dst src = elim (m src == 0) [
  | true ↦ some (update m dst (m src))
  | false ↦ ece391_strcpy_loop f (update m dst (m src)) (dst + 1) (src + 1)
]

unfoldable pub ece391_strcpy : Bytes → ℕ → ℕ → Option Bytes
unfolding ece391_strcpy_loop update
ece391_strcpy m dst src = ece391_strcpy_loop (2 ^ 32) m dst src

-- `ece391_strcmp` from index `i` on.
unfoldable pub ece391_strcmp_loop : ℕ → Bytes → Bytes → ℕ → Option ℤ
ece391_strcmp_loop zero s1 s2 i = none
ece391_strcmp_loop (suc f) s1 s2 i = elim (s1 i == s2 i) [
  | false ↦ some (pos (s1 i) -ℤ pos (s2 i))
  | true ↦ elim (s1 i == 0) [ true ↦ some (pos 0) | false ↦ ece391_strcmp_loop f s1 s2 (i + 1) ]
]

unfoldable pub ece391_strcmp : Bytes → Bytes → Option ℤ
unfolding ece391_strcmp_loop ◌-ℤ◌
ece391_strcmp s1 s2 = ece391_strcmp_loop (2 ^ 32) s1 s2 0

-- `ece391_strncmp` with `n` as it stands at index `i`; it is 0 there only at the start.
unfoldable pub ece391_strncmp_loop : (n : ℕ) → Bytes → Bytes → ℕ → ℤ
ece391_strncmp_loop zero s1 s2 i = pos 0
ece391_strncmp_loop (suc n) s1 s2 i = elim (s1 i == s2 i) [
  | false ↦ pos (s1 i) -ℤ pos (s2 i)
  | true ↦ elim (s1 i == 0 || n == 0) [ true ↦ pos 0 | false ↦ ece391_strncmp_loop n s1 s2 (i + 1) ]
]

unfoldable pub ece391_strncmp : Bytes → Bytes → ℕ → ℤ
unfolding ece391_strncmp_loop ◌-ℤ◌
ece391_strncmp s1 s2 n = ece391_strncmp_loop n s1 s2 0

-- `while (beg < end)`; `end` falls by one each round, so it bounds the rounds.
unfoldable pub ece391_strrev_loop : Bytes → ℕ → ℕ → Bytes
unfolding update
ece391_strrev_loop s beg zero = s
ece391_strrev_loop s beg (suc end) =
    let swapped =
      ece391_strrev_loop (update (update s (suc end) (s beg)) beg (s (suc end))) (beg + 1) end in
    if ltb beg (suc end) then swapped else s

-- `end` is the length less one, -1 at the empty text: up to length 1 there is nothing to do.
unfoldable pub ece391_strrev : Bytes → Option Bytes
unfolding ece391_strrev_loop
ece391_strrev s =
    ece391_strlen s >>= λ n. if ltb n 2 then some s else some (ece391_strrev_loop s 0 (n - 1))

-- The digits from the lowest on, as `lookup` has them.
unfoldable pub ece391_itoa_loop : ℕ → ℕ → ℕ → Bytes → ℕ → Bytes × ℕ
unfolding digit_char update
ece391_itoa_loop zero newval radix buf k = (buf, k)
ece391_itoa_loop (suc f) newval radix buf k = elim (newval == 0) [
  | true ↦ (buf, k)
  | false ↦
      ece391_itoa_loop f (newval / radix) radix (update buf k (digit_char (newval % radix))) (k + 1)
]

-- 32 rounds serve a `uint32_t` at every radix from 2 on.
unfoldable pub ece391_itoa : ℕ → Bytes → ℕ → Option Bytes
unfolding ece391_itoa_loop ece391_strrev update
ece391_itoa value buf radix =
    if value == 0
    then some (update (update buf 0 48) 1 0)
    else let (filled, k) = ece391_itoa_loop 32 value radix buf 0 in
      ece391_strrev (update filled k 0)

module _ {K : Type 0} (sys : System K) where
  -- The result of the write is dropped.
  unfoldable pub ece391_fdputs : K → ℤ → Bytes → Outcome K
  ece391_fdputs k fd s =
      or_endless (ece391_strlen s) >>> λ n. sys.write k fd s (pos n) >>> λ done. returns done.0
