-- ===== src/User/Syserr.antt =====
-- syscalls/ece391syserr.c: tests of what the system calls refuse. `buf` is what the local buffers
-- hold before, and the memory of a call by its number.
pub mod Refusals
pub mod Passing
use project_my_os.Base.{
  ℕ, zero, suc, ◌+◌, ◌==◌, if◌then◌else◌, Bytes, ℤ, pos, negsuc, is_minus_one, List, codes,
}
use project_my_os.Str.{bytes_of}
use project_my_os.SystemCall.{Outcome, returns, ◌>>>◌}
use project_my_os.SystemCall.Dispatch.{Registers}
use project_my_os.User.{System}
use project_my_os.User.Support.{ece391_fdputs}

abbrev pub neg_fd : ℤ
neg_fd = negsuc 1073741822

abbrev pub big_fd : ℤ
big_fd = pos 1073741823

module _ {K : Type 0} (sys : System K) where
  -- `ece391_fdputs (1, …)`
  unfoldable pub say : K → List ℕ → Outcome K
  unfolding ece391_fdputs
  say k message = ece391_fdputs sys k (pos 1) (bytes_of message)

  -- `if (-1 != ret) { fail = 2; ece391_fdputs (1, message); }`
  unfoldable pub expect_refusal : K → (ret : ℤ) → (fail : ℕ) → List ℕ → Outcome (K × ℕ)
  unfolding say
  expect_refusal k ret fail message =
      if is_minus_one ret then returns (k, fail) else (say k message >>> λ k1. returns (k1, 2))

  -- The end of a test: its result is printed and returned.
  unfoldable pub report : K → (fail : ℕ) → (failed passed : List ℕ) → Outcome (K × ℕ)
  unfolding say
  report k fail failed passed =
      (if fail == 0 then say k passed else say k failed) >>> λ k1. returns (k1, fail)

  -- `err_neg_fd` and `err_big_fd` for the descriptor they use.
  unfoldable pub err_fd : K → Bytes → ℤ → (failed passed : List ℕ) → Outcome (K × ℕ)
  unfolding expect_refusal report
  err_fd k buf fd failed passed = sys.read k fd buf 31 >>> λ r.
      expect_refusal r.0 r.1 0 (codes "read fail\n") >>> λ a. sys.write a.0 fd r.2 (pos 31) >>> λ w.
      expect_refusal w.0 w.1 a.1 (codes "write fail\n") >>> λ b. sys.close b.0 fd >>> λ c.
      expect_refusal c.0 c.1 b.1 (codes "close fail\n") >>> λ d. report d.0 d.1 failed passed

  unfoldable pub err_neg_fd : K → Bytes → Outcome (K × ℕ)
  unfolding err_fd
  err_neg_fd k buf = err_fd k buf neg_fd (codes "err_neg_fd: FAIL\n") (codes "err_neg_fd: PASS\n")

  unfoldable pub err_big_fd : K → Bytes → Outcome (K × ℕ)
  unfolding err_fd
  err_big_fd k buf = err_fd k buf big_fd (codes "err_big_fd: FAIL\n") (codes "err_big_fd: PASS\n")

  -- `r` calls of `open (".")`; those that fail are counted in `cnt`.
  unfoldable pub open_loop : (r : ℕ) → K → (cnt : ℕ) → Outcome (K × ℕ)
  open_loop zero k cnt = returns (k, cnt)
  open_loop (suc r) k cnt = sys.open_file k (bytes_of (codes ".")) >>> λ o.
      open_loop r o.0 (if is_minus_one o.1 then cnt + 1 else cnt)

  -- `r` descriptors from `i` on are closed.
  unfoldable pub close_loop : (r : ℕ) → K → (i : ℕ) → Outcome K
  close_loop zero k i = returns k
  close_loop (suc r) k i = sys.close k (pos i) >>> λ c. close_loop r c.0 (i + 1)

  unfoldable pub err_open_lots : K → Outcome (K × ℕ)
  unfolding open_loop close_loop say
  err_open_lots k = open_loop 7 k 0 >>> λ o. close_loop 6 o.0 2 >>> λ k1.
      if o.1 == 1
      then (say k1 (codes "err_open_lots: PASS\n") >>> λ k2. returns (k2, 0))
      else (say k1 (codes "err_open_lots: FAIL\n") >>> λ k2. returns (k2, 2))

  unfoldable pub err_open : K → Outcome (K × ℕ)
  unfolding expect_refusal report
  err_open k = sys.open_file k (bytes_of (codes "helloo")) >>> λ o.
      expect_refusal o.0 o.1 0 (codes "'helloo' fail\n") >>> λ a.
      sys.open_file a.0 (bytes_of (codes "shel")) >>> λ o1.
      expect_refusal o1.0 o1.1 a.1 (codes "'shel' fail\n") >>> λ b.
      sys.open_file b.0 (bytes_of (codes "")) >>> λ o2.
      expect_refusal o2.0 o2.1 b.1 (codes "empty string fail\n") >>> λ c.
      report c.0 c.1 (codes "err_open: FAIL\n") (codes "err_open: PASS\n")

  -- The three loops of `err_unopened`, `r` rounds left from descriptor `i` on.
  unfoldable pub closes : (r : ℕ) → K → (i fail : ℕ) → Outcome (K × ℕ)
  unfolding expect_refusal
  closes zero k i fail = returns (k, fail)
  closes (suc r) k i fail = sys.close k (pos i) >>> λ c.
      expect_refusal c.0 c.1 fail (codes "close unopened or invalid fd fail\n") >>> λ a.
      closes r a.0 (i + 1) a.1

  unfoldable pub reads : (r : ℕ) → K → Bytes → (i fail : ℕ) → Outcome (K × Bytes × ℕ)
  unfolding expect_refusal
  reads zero k buf i fail = returns (k, buf, fail)
  reads (suc r) k buf i fail = sys.read k (pos i) buf 31 >>> λ c.
      expect_refusal c.0 c.1 fail (codes "read from unopened fd fail\n") >>> λ a.
      reads r a.0 c.2 (i + 1) a.1

  unfoldable pub writes : (r : ℕ) → K → Bytes → (i fail : ℕ) → Outcome (K × ℕ)
  unfolding expect_refusal
  writes zero k buf i fail = returns (k, fail)
  writes (suc r) k buf i fail = sys.write k (pos i) buf (pos 31) >>> λ c.
      expect_refusal c.0 c.1 fail (codes "write to unopened fd fail\n") >>> λ a.
      writes r a.0 buf (i + 1) a.1

  unfoldable pub err_unopened : K → Bytes → Outcome (K × ℕ)
  unfolding closes reads writes report
  err_unopened k buf = closes 8 k 0 0 >>> λ a. reads 6 a.0 buf 2 a.1 >>> λ b.
      writes 6 b.0 b.1 2 b.2 >>> λ c.
      report c.0 c.1 (codes "err_unopened: FAIL\n") (codes "err_unopened: PASS\n")

  unfoldable pub err_vidmap : K → Outcome (K × ℕ)
  unfolding expect_refusal report
  err_vidmap k = sys.vidmap k 0 >>> λ v.
      expect_refusal v.0 v.1 0 (codes "Null pointer fail\n") >>> λ a.
      sys.vidmap a.0 0x400000 >>> λ w.
      expect_refusal w.0 w.1 a.1 (codes "Kernel pointer fail fail\n") >>> λ b.
      report b.0 b.1 (codes "err_vidmap: FAIL\n") (codes "err_vidmap: PASS\n")

  unfoldable pub err_stdin_out : K → Bytes → Outcome (K × ℕ)
  unfolding expect_refusal report
  err_stdin_out k buf = sys.write k (pos 0) buf (pos 31) >>> λ w.
      expect_refusal w.0 w.1 0 (codes "write to stdin fail\n") >>> λ a.
      sys.read a.0 (pos 1) buf 31 >>> λ r.
      expect_refusal r.0 r.1 a.1 (codes "read from stdout fail\n") >>> λ b.
      report b.0 b.1 (codes "err_stdin_out: FAIL\n") (codes "err_stdin_out: PASS\n")

  -- `call_sys` sets %eax only; `left` is what the other registers hold, `mem` the memory.
  unfoldable pub err_syscall_num : K → (mem : Bytes) → (left : Registers) → Outcome (K × ℕ)
  unfolding expect_refusal report
  err_syscall_num k mem left = sys.call_sys k mem (record left { eax = big_fd }) >>> λ v.
      expect_refusal v.0 v.2 0 (codes "syscall 0 fail\n") >>> λ a.
      sys.call_sys a.0 v.1 (record left { eax = neg_fd }) >>> λ w.
      expect_refusal w.0 w.2 a.1 (codes "big num syscall fail\n") >>> λ b.
      sys.call_sys b.0 w.1 (record left { eax = pos 0 }) >>> λ z.
      expect_refusal z.0 z.2 b.1 (codes "neg num syscall fail\n") >>> λ c.
      report c.0 c.1 (codes "err_syscall_num: FAIL\n") (codes "err_syscall_num: PASS\n")

  -- Case 0 of the switch: all tests, their results added up.
  unfoldable pub run_all : K → Bytes → Registers → Outcome (K × ℕ)
  unfolding err_neg_fd err_big_fd err_open_lots err_open err_unopened err_vidmap err_stdin_out
      err_syscall_num say
  run_all k buf left = err_neg_fd k buf >>> λ a. err_big_fd a.0 buf >>> λ b.
      err_open_lots b.0 >>> λ c. err_open c.0 >>> λ d. err_unopened d.0 buf >>> λ e.
      err_vidmap e.0 >>> λ f. err_stdin_out f.0 buf >>> λ g. err_syscall_num g.0 buf left >>> λ h.
      let fail = a.1 + b.1 + c.1 + d.1 + e.1 + f.1 + g.1 + h.1 in
      (if fail == 0
        then say h.0 (codes "\nOverall Tests: PASS\n")
        else say h.0 (codes "\nOverall Tests: FAIL\n"))
      >>> λ k1. returns (k1, fail)

  -- The switch on the first character read.
  unfoldable pub select_test : K → Bytes → Registers → (c : ℕ) → Outcome (K × ℕ)
  unfolding run_all err_neg_fd err_big_fd err_open_lots err_open err_unopened err_vidmap
      err_stdin_out err_syscall_num say
  select_test k buf left c =
      if c == b'0'
      then run_all k buf left
      else if c == b'1'
      then err_neg_fd k buf
      else if c == b'2'
      then err_big_fd k buf
      else if c == b'3'
      then err_open_lots k
      else if c == b'4'
      then err_open k
      else if c == b'5'
      then err_unopened k buf
      else if c == b'6'
      then err_vidmap k
      else if c == b'7'
      then err_stdin_out k buf
      else if c == b'8'
      then err_syscall_num k buf left
      else (say k (codes "Invalid test number. Choose from tests 1-8 or 0") >>> λ k1.
          returns (k1, 0))

  -- `main`; `stack` is what its own buffer holds before.
  unfoldable pub syserr : K → (stack buf : Bytes) → Registers → Outcome (K × ℕ)
  unfolding select_test say
  syserr k stack buf left = say k (codes "Choose from tests 1-8. 0 to run all: ") >>> λ k1.
      sys.read k1 (pos 0) stack 127 >>> λ r.
      if is_minus_one r.1
      then (say r.0 (codes "Can't read test #\n") >>> λ k2. returns (k2, 2))
      else select_test r.0 buf left (r.2 0)
