-- ===== src/User/Shell.antt =====
-- syscalls/ece391shell.c: a line is read, and is run as a command.
use project_my_os.Base.{
  ℕ, zero, suc, Bool, false, ◌==◌, if◌then◌else◌, Bytes, ℤ, pos, negsuc, is_zero, is_minus_one,
  codes,
}
use project_my_os.Str.{bytes_of}
use project_my_os.SystemCall.{Outcome, returns, endless, or_endless, ◌>>>◌}
use project_my_os.User.{System}
use project_my_os.User.Support.{ece391_strcmp, ece391_fdputs}
use project_my_os.User.Small.{set_at}

-- `if (cnt > 0 && '\n' == buf[cnt - 1]) cnt--;`
unfoldable pub without_newline : Bytes → ℤ → ℤ
without_newline buf (pos zero) = pos 0
without_newline buf (pos (suc n)) = if buf n == b'\n' then pos n else pos (suc n)
without_newline buf (negsuc n) = negsuc n

-- `256 == rval`
abbrev is_256 : ℤ → Bool
is_256 (pos n) = n == 256
is_256 (negsuc n) = false

module _ {K : Type 0} (sys : System K) where
  -- What is said of the status of a command.
  unfoldable pub report_status : K → ℤ → Outcome K
  unfolding ece391_fdputs
  report_status k rval =
      if is_minus_one rval
      then ece391_fdputs sys k (pos 1) (bytes_of (codes "no such command\n"))
      else if is_256 rval
      then ece391_fdputs sys k (pos 1) (bytes_of (codes "program terminated by exception\n"))
      else if is_zero rval
      then returns k
      else ece391_fdputs sys k (pos 1) (bytes_of (codes "program terminated abnormally\n"))

  -- `while (1)`, with fuel.
  unfoldable pub shell_loop : ℕ → K → Bytes → Outcome (K × ℤ)
  unfolding without_newline set_at report_status ece391_fdputs
  shell_loop zero k buf = endless
  shell_loop (suc f) k buf = ece391_fdputs sys k (pos 1) (bytes_of (codes "391OS> ")) >>> λ k1.
      sys.read k1 (pos 0) buf 1023 >>> λ r.
      if is_minus_one r.1
      then (ece391_fdputs sys r.0 (pos 1) (bytes_of (codes "read from keyboard failed\n")) >>> λ k2.
          returns (k2, pos 3))
      else (let line = set_at r.2 (without_newline r.2 r.1) 0 in
          or_endless (ece391_strcmp line (bytes_of (codes "exit"))) >>> λ d.
          let again = shell_loop f r.0 line in
          if is_zero d
          then returns (r.0, pos 0)
          else if line 0 == 0
          then again
          else (sys.execute r.0 line >>> λ x. report_status x.0 x.1 >>> λ k2. shell_loop f k2 line))

  unfoldable pub shell : ℕ → K → Bytes → Outcome (K × ℤ)
  unfolding shell_loop ece391_fdputs
  shell f k stack = ece391_fdputs sys k (pos 1) (bytes_of (codes "Starting 391 Shell\n")) >>> λ k1.
      shell_loop f k1 stack
