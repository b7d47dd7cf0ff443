-- ===== src/User/Syserr/Refusals.antt =====
-- syscalls/ece391syserr.c over any system that refuses what the tests ask for.
use project_my_os.Base.{
  ℕ, zero, suc, ◌+◌, ◌≤◌, ◌<◌, ◌≡◌, ◌≢◌, refl, ◌∙◌, ap, true, Bytes, ℤ, pos, minus_one, none, List,
  [], ◌∷◌, length, slice_of, slice_of-shift, some, codes, arith,
}
use project_my_os.Str.{bytes_of}
use project_my_os.Str.Laws.{bytes_of-IsString, nonzero, strlen_lem}
use project_my_os.Screen.{Screen, put_all}
use project_my_os.SystemCall.{Outcome, returns, ◌>>>◌}
use project_my_os.SystemCall.Dispatch.{Registers, number_in_table}
use project_my_os.User.{System}
use project_my_os.User.Support.{ece391_strlen, ece391_fdputs}
use project_my_os.User.Strings.{strlen-eq}
use project_my_os.User.Syserr.{
  neg_fd, big_fd, say, expect_refusal, report, err_fd, err_neg_fd, err_big_fd, closes, reads,
  writes, err_unopened, err_vidmap, err_syscall_num,
}

-- What the tests rely on: a state with a screen, on which the writes to descriptor 1 come out, and
-- in which only the descriptors 0 and 1 are open. A refused call changes nothing.
pub record Refuses {K : Type 0} (sys : System K) : Type 1 where
  pub IsIdle : K → Type 0
  pub screen : K → Screen
  pub prints :
      (k : K) (buf : Bytes) (n : ℕ)
      → IsIdle k
      → n ≤ 1024
      → (k' : K) × (w : ℤ) × (sys.write k (pos 1) buf (pos n) ≡ returns (k', w))
        × IsIdle k'
        × (screen k' ≡ put_all (screen k) (slice_of buf 0 n))
  pub read_law :
      (k : K) (fd : ℤ) (buf : Bytes) (n : ℕ)
      → IsIdle k
      → fd ≢ pos 0
      → fd ≢ pos 1
      → (buf' : Bytes) × (sys.read k fd buf n ≡ returns (k, minus_one, buf'))
  pub write_law :
      (k : K) (fd : ℤ) (buf : Bytes) (n : ℕ)
      → IsIdle k
      → fd ≢ pos 0
      → fd ≢ pos 1
      → sys.write k fd buf (pos n) ≡ returns (k, minus_one)
  pub close_law : (k : K) (fd : ℤ) → IsIdle k → sys.close k fd ≡ returns (k, minus_one)
  pub vidmap_law :
      (k : K) (p : ℕ) → IsIdle k → p < 0x08000000 → sys.vidmap k p ≡ returns (k, minus_one, none)
  pub call_law :
      (k : K) (mem : Bytes) (r : Registers)
      → IsIdle k
      → number_in_table r.eax ≡ none
      → sys.call_sys k mem r ≡ returns (k, mem, minus_one)

bytes_of-later : (c : ℕ) (cs : List ℕ) (j : ℕ) → bytes_of (c ∷ cs) (0 + 1 + j) ≡ bytes_of cs (0 + j)
bytes_of-later c cs j =
    let e : 0 + 1 + j ≡ suc j = omega arith in let e' : 0 + j ≡ j = omega arith in rw (e, e') refl

slice_of-bytes_of : (l : List ℕ) → slice_of (bytes_of l) 0 (length l) ≡ l
unfolding slice_of
slice_of-bytes_of [] = refl
slice_of-bytes_of (c ∷ cs) =
    ap (λ (l : List ℕ). c ∷ l)
      (slice_of-shift (bytes_of (c ∷ cs)) (bytes_of cs) (0 + 1) 0 (length cs)
          (λ j h. bytes_of-later c cs j)
        ∙ slice_of-bytes_of cs)

pos_ne : (i j : ℕ) → i ≢ j → pos i ≢ pos j
pos_ne i j h e = h (cc e)

module _ {K : Type 0} (sys : System K) (laws : Refuses sys) where
  -- A test has passed: it returns 0 and has printed this message and nothing else.
  abbrev pub Passes : K → Outcome (K × ℕ) → List ℕ → Type 0
  Passes k o message =
      (k' : K) × (o ≡ returns (k', 0)) × (laws.screen k' ≡ put_all (laws.screen k) message)

  expect_refusal-refused :
      (k : K) (fail : ℕ) (message : List ℕ)
      → expect_refusal sys k minus_one fail message ≡ returns (k, fail)
  unfolding expect_refusal
  expect_refusal-refused k fail message = refl

  report-Passes :
      (k : K) (failed passed : List ℕ)
      → laws.IsIdle k
      → nonzero passed ≡ true
      → length passed ≤ 1024
      → Passes k (report sys k 0 failed passed) passed
  unfolding report say ece391_fdputs
  report-Passes k failed passed idle text fits =
      let (k', w, e, idle', shown) = laws.prints k (bytes_of passed) (length passed) idle fits in
      let len : ece391_strlen (bytes_of passed) ≡ some (length passed) =
        strlen-eq (bytes_of passed)
        ∙ strlen_lem (bytes_of passed) (length passed)
            (bytes_of-IsString passed text (omega arith)) in
      (k', rw (len, ◌>>>◌, e) refl, shown ∙ ap (put_all (laws.screen k)) (slice_of-bytes_of passed))

  err_fd-Passes :
      (k : K) (buf : Bytes) (fd : ℤ) (failed passed : List ℕ)
      → laws.IsIdle k
      → fd ≢ pos 0
      → fd ≢ pos 1
      → nonzero passed ≡ true
      → length passed ≤ 1024
      → Passes k (err_fd sys k buf fd failed passed) passed
  unfolding err_fd expect_refusal
  err_fd-Passes k buf fd failed passed idle n0 n1 text fits =
      let (buf', e) = laws.read_law k fd buf 31 idle n0 n1 in
      rw (e, ◌>>>◌, laws.write_law k fd buf' 31 idle n0 n1, ◌>>>◌, laws.close_law k fd idle)
        (report-Passes k failed passed idle text fits)

  pub err_neg_fd-Passes :
      (k : K) (buf : Bytes)
      → laws.IsIdle k
      → Passes k (err_neg_fd sys k buf) (codes "err_neg_fd: PASS\n")
  unfolding err_neg_fd nonzero
  err_neg_fd-Passes k buf idle =
      err_fd-Passes k buf neg_fd (codes "err_neg_fd: FAIL\n") (codes "err_neg_fd: PASS\n") idle
        (λ e. cc) (λ e. cc) refl (omega arith)

  pub err_big_fd-Passes :
      (k : K) (buf : Bytes)
      → laws.IsIdle k
      → Passes k (err_big_fd sys k buf) (codes "err_big_fd: PASS\n")
  unfolding err_big_fd nonzero
  err_big_fd-Passes k buf idle =
      err_fd-Passes k buf big_fd (codes "err_big_fd: FAIL\n") (codes "err_big_fd: PASS\n") idle
        (λ e. cc) (λ e. cc) refl (omega arith)

  closes-refused : (r : ℕ) (k : K) (i : ℕ) → laws.IsIdle k → closes sys r k i 0 ≡ returns (k, 0)
  unfolding closes expect_refusal
  closes-refused zero k i idle = refl
  closes-refused (suc r) k i idle =
      rw (laws.close_law k (pos i) idle, ◌>>>◌) (closes-refused r k (i + 1) idle)

  reads-refused :
      (r : ℕ) (k : K) (buf : Bytes) (i : ℕ)
      → laws.IsIdle k
      → 2 ≤ i
      → (buf' : Bytes) × (reads sys r k buf i 0 ≡ returns (k, buf', 0))
  unfolding reads expect_refusal
  reads-refused zero k buf i idle h = (buf, refl)
  reads-refused (suc r) k buf i idle h =
      let (b, e) =
        laws.read_law k (pos i) buf 31 idle (pos_ne i 0 (omega arith)) (pos_ne i 1 (omega arith)) in
      let (buf', e') = reads-refused r k b (i + 1) idle (omega arith) in (buf', rw (e, ◌>>>◌) e')

  writes-refused :
      (r : ℕ) (k : K) (buf : Bytes) (i : ℕ)
      → laws.IsIdle k
      → 2 ≤ i
      → writes sys r k buf i 0 ≡ returns (k, 0)
  unfolding writes expect_refusal
  writes-refused zero k buf i idle h = refl
  writes-refused (suc r) k buf i idle h =
      rw
        (
          laws.write_law k (pos i) buf 31 idle (pos_ne i 0 (omega arith))
              (pos_ne i 1 (omega arith)),
          ◌>>>◌,
        )
        (writes-refused r k buf (i + 1) idle (omega arith))

  pub err_unopened-Passes :
      (k : K) (buf : Bytes)
      → laws.IsIdle k
      → Passes k (err_unopened sys k buf) (codes "err_unopened: PASS\n")
  unfolding err_unopened nonzero
  err_unopened-Passes k buf idle =
      let (buf', e) = reads-refused 6 k buf 2 idle (omega arith) in
      rw (closes-refused 8 k 0 idle, ◌>>>◌, e, ◌>>>◌, writes-refused 6 k buf' 2 idle (omega arith))
        (report-Passes k (codes "err_unopened: FAIL\n") (codes "err_unopened: PASS\n") idle refl
          (omega arith))

  pub err_vidmap-Passes :
      (k : K) → laws.IsIdle k → Passes k (err_vidmap sys k) (codes "err_vidmap: PASS\n")
  unfolding err_vidmap nonzero expect_refusal
  err_vidmap-Passes k idle =
      rw
        (
          laws.vidmap_law k 0 idle (omega arith),
          ◌>>>◌,
          laws.vidmap_law k 0x400000 idle (omega arith),
        )
        (report-Passes k (codes "err_vidmap: FAIL\n") (codes "err_vidmap: PASS\n") idle refl
          (omega arith))

  pub err_syscall_num-Passes :
      (k : K) (mem : Bytes) (left : Registers)
      → laws.IsIdle k
      → Passes k (err_syscall_num sys k mem left) (codes "err_syscall_num: PASS\n")
  unfolding err_syscall_num nonzero expect_refusal number_in_table
  err_syscall_num-Passes k mem left idle =
      rw
        (
          laws.call_law k mem (record left { eax = big_fd }) idle refl,
          ◌>>>◌,
          laws.call_law k mem (record left { eax = neg_fd }) idle refl,
          ◌>>>◌,
          laws.call_law k mem (record left { eax = pos 0 }) idle refl,
        )
        (report-Passes k (codes "err_syscall_num: FAIL\n") (codes "err_syscall_num: PASS\n") idle
          refl (omega arith))
