-- ===== src/User/Small.antt =====
-- The short user programs: syscalls/ece391hello.c, ece391testprint.c, ece391ls.c, ece391counter.c.
-- `stack` is what the local buffers hold before. The result is the state and the exit status.
use project_my_os.Base.{
  ℕ, zero, suc, ◌+◌, ◌&&◌, ◌||◌, ltb, ◌==◌, if◌then◌else◌, Bytes, update, ℤ, pos, negsuc, is_zero,
  is_minus_one, codes,
}
use project_my_os.Str.{bytes_of}
use project_my_os.SystemCall.{Outcome, returns, endless, or_endless, ◌>>>◌}
use project_my_os.User.{System}
use project_my_os.User.Support.{ece391_strlen, ece391_itoa, ece391_fdputs}

-- `cnt + 1` as an argument.
abbrev pub next : ℤ → ℤ
next (pos n) = pos (n + 1)
next (negsuc zero) = pos 0
next (negsuc (suc n)) = negsuc n

-- `buf[cnt] = c` for a count that is not negative.
unfoldable pub set_at : Bytes → ℤ → ℕ → Bytes
unfolding update
set_at buf (pos n) c = update buf n c
set_at buf (negsuc n) c = buf

module _ {K : Type 0} (sys : System K) where
  unfoldable pub hello : K → Bytes → Outcome (K × ℤ)
  unfolding set_at ece391_fdputs
  hello k stack = ece391_fdputs sys k (pos 1) (bytes_of (codes "Hi, what's your name? ")) >>> λ k1.
      sys.read k1 (pos 0) stack 1023 >>> λ r.
      if is_minus_one r.1
      then (ece391_fdputs sys r.0 (pos 1) (bytes_of (codes "Can't read name from keyboard.\n"))
          >>> λ k2. returns (k2, pos 3))
      else (ece391_fdputs sys r.0 (pos 1) (bytes_of (codes "Hello, ")) >>> λ k2.
          ece391_fdputs sys k2 (pos 1) (set_at r.2 r.1 0) >>> λ k3. returns (k3, pos 0))

  unfoldable pub testprint : K → Outcome (K × ℤ)
  unfolding ece391_fdputs
  testprint k =
      ece391_fdputs sys k (pos 1)
        (bytes_of (codes "Hello, if this ran, the program was correct. Yay!\n"))
      >>> λ k1. returns (k1, pos 0)

  -- The loop of `ls`, with `f` rounds of fuel.
  unfoldable pub ls_loop : ℕ → K → ℤ → Bytes → Outcome (K × ℤ)
  unfolding set_at ece391_fdputs
  ls_loop zero k fd buf = endless
  ls_loop (suc f) k fd buf = sys.read k fd buf 32 >>> λ r.
      if is_zero r.1
      then returns (r.0, pos 0)
      else if is_minus_one r.1
      then (ece391_fdputs sys r.0 (pos 1) (bytes_of (codes "directory entry read failed\n"))
          >>> λ k1. returns (k1, pos 3))
      else (sys.write r.0 (pos 1) (set_at r.2 r.1 b'\n') (next r.1) >>> λ w.
          let rest = ls_loop f w.0 fd (set_at r.2 r.1 b'\n') in
          if is_minus_one w.1 then returns (w.0, pos 3) else rest)

  unfoldable pub ls : ℕ → K → Bytes → Outcome (K × ℤ)
  unfolding ls_loop ece391_fdputs
  ls f k stack = sys.open_file k (bytes_of (codes ".")) >>> λ o.
      if is_minus_one o.1
      then (ece391_fdputs sys o.0 (pos 1) (bytes_of (codes "directory open failed\n")) >>> λ k1.
          returns (k1, pos 2))
      else ls_loop f o.0 o.1 stack

  -- `r` numbers from `i + 1` on, one to a line.
  unfoldable pub count_loop : ℕ → ℕ → K → Bytes → Outcome (K × ℤ)
  unfolding ece391_fdputs
  count_loop zero i k buf = returns (k, pos 0)
  count_loop (suc r) i k buf = or_endless (ece391_itoa (i + 1) buf 10) >>> λ digits.
      ece391_fdputs sys k (pos 1) digits >>> λ k1.
      ece391_fdputs sys k1 (pos 1) (bytes_of (codes "\n")) >>> λ k2. count_loop r (i + 1) k2 digits

  -- `max` for the first character of the answer.
  unfoldable pub max_for : ℕ → ℕ
  max_for c =
      if c == b'0' then 100 else if c == b'1' then 10000 else if c == b'2' then 100000 else 0

  unfoldable pub counter : K → Bytes → Outcome (K × ℤ)
  unfolding set_at ece391_fdputs count_loop max_for
  counter k stack =
      ece391_fdputs sys k (pos 1)
        (bytes_of (codes "Enter the Test Number: (0): 100, (1): 10000, (2): 100000\n"))
      >>> λ k1. sys.read k1 (pos 0) stack 1023 >>> λ r.
          if is_minus_one r.1
          then (ece391_fdputs sys r.0 (pos 1)
                (bytes_of (codes "Can't read the number from keyboard.\n"))
              >>> λ k2. returns (k2, pos 3))
          else (let buf = set_at r.2 r.1 0 in
              or_endless (ece391_strlen buf) >>> λ n.
              if ltb 2 n || (n == 2 && (ltb (buf 0) b'0' || ltb b'2' (buf 0)))
              then (ece391_fdputs sys r.0 (pos 1) (bytes_of (codes "Wrong Choice!\n")) >>> λ k2.
                  returns (k2, pos 0))
              else count_loop (max_for (buf 0)) 0 r.0 buf)
