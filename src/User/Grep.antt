-- ===== src/User/Grep.antt =====
-- syscalls/ece391grep.c: the lines of every file that have the argument in them.
use project_my_os.Base.{
  ℕ, zero, suc, ◌+◌, ◌-◌, Bool, true, false, not, ◌&&◌, ltb, ◌==◌, if◌then◌else◌, Bytes, from,
  update, ℤ, pos, negsuc, is_zero, is_minus_one, codes,
}
use project_my_os.Str.{bytes_of}
use project_my_os.SystemCall.{Outcome, returns, endless, or_endless, ◌>>>◌}
use project_my_os.User.{System}
use project_my_os.User.Support.{ece391_strlen, ece391_strcpy, ece391_strncmp, ece391_fdputs}
use project_my_os.User.Small.{set_at}

-- `while (line_end < last && '\n' != data[line_end])`, `r` bytes before `last`.
unfoldable pub line_end_loop : (r : ℕ) → Bytes → ℕ → ℕ
line_end_loop zero buf line_end = line_end
line_end_loop (suc r) buf line_end = elim (buf line_end == b'\n') [
  | true ↦ line_end
  | false ↦ line_end_loop r buf (line_end + 1)
]

-- `line_end` for a line that starts at `line_start`.
unfoldable pub line_end_from : Bytes → (line_start last : ℕ) → ℕ
unfolding line_end_loop
line_end_from buf line_start last = line_end_loop (last - line_start) buf line_start

-- The test of one position of a line.
unfoldable pub matches_at : Bytes → (s_len : ℕ) → Bytes → ℕ → Bool
unfolding ece391_strncmp
matches_at s s_len buf check =
    (s 0 == buf check) && is_zero (ece391_strncmp (from buf check) s s_len)

-- `for (check = line_start; check < line_end; check++)`, `r` positions left: whether one matches.
unfoldable pub check_loop : (r : ℕ) → Bytes → (s_len : ℕ) → Bytes → ℕ → Bool
unfolding matches_at
check_loop zero s s_len buf check = false
check_loop (suc r) s s_len buf check = elim (matches_at s s_len buf check) [
  | true ↦ true
  | false ↦ check_loop r s s_len buf (check + 1)
]

-- `cnt` where it is added.
abbrev pub count : ℤ → ℕ
count (pos n) = n
count (negsuc n) = 0

module _ {K : Type 0} (sys : System K) where
  -- The name, a colon, and the line.
  unfoldable pub print_match : K → Bytes → Bytes → Outcome K
  unfolding ece391_fdputs
  print_match k fname line = ece391_fdputs sys k (pos 1) fname >>> λ k1.
      ece391_fdputs sys k1 (pos 1) (bytes_of (codes ":")) >>> λ k2.
      ece391_fdputs sys k2 (pos 1) line >>> λ k3.
      ece391_fdputs sys k3 (pos 1) (bytes_of (codes "\n"))

  -- The loop over the lines in the buffer, with fuel: the state, the buffer, and the new `last`.
  unfoldable pub lines_loop :
      ℕ
      → K
      → Bytes
      → Bytes
      → (s_len : ℕ) → (cnt : ℤ) → Bytes
      → (last line_start : ℕ) → Outcome (K × Bytes × ℕ)
  unfolding line_end_from check_loop print_match update
  lines_loop zero k s fname s_len cnt buf last line_start = endless
  lines_loop (suc f) k s fname s_len cnt buf last line_start =
      let line_end = line_end_from buf line_start last in
      let ended = update buf line_end 0 in
      let found = check_loop (line_end - line_start) s s_len ended line_start in
      let after : K → Outcome (K × Bytes × ℕ) = λ k1.
        let rest = lines_loop f k1 s fname s_len cnt ended last (line_end + 1) in
        if ltb (line_end + 1) last then rest else returns (k1, ended, 0) in
      if not (buf line_end == b'\n') && not (is_zero cnt) && not (line_start == 0)
      then (or_endless (ece391_strcpy ended 0 line_start) >>> λ moved.
          returns (k, moved, last - line_start))
      else if found
      then (print_match k fname (from ended line_start) >>> after)
      else after k

  -- What `ece391_read (fd, data + last, BUFSIZE - last)` leaves in `data`.
  unfoldable pub placed : Bytes → ℕ → Bytes → Bytes
  placed buf last got i = if ltb i last then buf i else got (i - last)

  -- The outer loop of `do_one_file`, with fuel; a round over the lines gets its own.
  unfoldable pub file_loop :
      ℕ → K → ℤ → Bytes → Bytes → (s_len : ℕ) → Bytes → (last : ℕ) → Outcome (K × ℤ)
  unfolding lines_loop placed ece391_fdputs
  file_loop zero k fd s fname s_len buf last = endless
  file_loop (suc f) k fd s fname s_len buf last =
      sys.read k fd (from buf last) (1024 - last) >>> λ r.
      if is_minus_one r.1
      then (ece391_fdputs sys r.0 (pos 1) (bytes_of (codes "file read failed\n")) >>> λ k1.
          returns (k1, negsuc 0))
      else (lines_loop 1026 r.0 s fname s_len r.1 (placed buf last r.2) (last + count r.1) 0
          >>> λ l.
              let rest = file_loop f l.0 fd s fname s_len l.1 l.2 in
              if is_zero r.1
              then (sys.close l.0 fd >>> λ c.
                  if is_minus_one c.1
                  then (ece391_fdputs sys c.0 (pos 1) (bytes_of (codes "file close failed\n"))
                      >>> λ k1. returns (k1, negsuc 0))
                  else returns (c.0, pos 0))
              else rest)

  unfoldable pub do_one_file : ℕ → K → Bytes → Bytes → Bytes → Outcome (K × ℤ)
  unfolding file_loop ece391_fdputs
  do_one_file f k s fname stack = or_endless (ece391_strlen s) >>> λ s_len.
      sys.open_file k fname >>> λ o.
      if is_minus_one o.1
      then (ece391_fdputs sys o.0 (pos 1) (bytes_of (codes "file open failed\n")) >>> λ k1.
          returns (k1, negsuc 0))
      else file_loop f o.0 o.1 s fname s_len stack 0

  -- The loop of `main` over the directory, with fuel; each file gets `g` rounds.
  unfoldable pub entries_loop : (f g : ℕ) → K → ℤ → Bytes → Bytes → Bytes → Outcome (K × ℤ)
  unfolding do_one_file set_at ece391_fdputs
  entries_loop zero g k fd search buf stack = endless
  entries_loop (suc f) g k fd search buf stack = sys.read k fd buf 32 >>> λ r.
      let skipped = entries_loop f g r.0 fd search r.2 stack in
      if is_zero r.1
      then returns (r.0, pos 0)
      else if is_minus_one r.1
      then (ece391_fdputs sys r.0 (pos 1) (bytes_of (codes "directory entry read failed\n"))
          >>> λ k1. returns (k1, pos 3))
      else if r.2 0 == b'.'
      then skipped
      else (do_one_file g r.0 search (set_at r.2 r.1 0) stack >>> λ d.
          let rest = entries_loop f g d.0 fd search (set_at r.2 r.1 0) stack in
          if is_zero d.1 then rest else returns (d.0, pos 3))

  unfoldable pub grep : (f g : ℕ) → K → Bytes → Outcome (K × ℤ)
  unfolding entries_loop ece391_fdputs
  grep f g k stack = sys.getargs k stack 1024 >>> λ a.
      if not (is_zero a.1)
      then (ece391_fdputs sys a.0 (pos 1) (bytes_of (codes "could not read argument\n")) >>> λ k1.
          returns (k1, pos 3))
      else (sys.open_file a.0 (bytes_of (codes ".")) >>> λ o.
          if is_minus_one o.1
          then (ece391_fdputs sys o.0 (pos 1) (bytes_of (codes "directory open failed\n")) >>> λ k1.
              returns (k1, pos 2))
          else entries_loop f g o.0 o.1 a.2 stack stack)
