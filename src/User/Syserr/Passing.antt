-- ===== src/User/Syserr/Passing.antt =====
-- syscalls/ece391syserr.c on the kernel: student-distrib/systemcall.c and handler.S refuse what the
-- tests ask for.
use project_my_os.Base.{
  ℕ, zero, suc, ◌≤◌, ◌<◌, ◌≡◌, ◌≢◌, refl, false, Bool-cases, inl, inr, ltb, lt→ltb, ltb_false→le,
  Bytes, ℤ, pos, negsuc, minus_one, none, some, List, [], codes, arith, ne→==,
}
use project_my_os.Screen.{put_all}
use project_my_os.Keyboard.ReadWrite.{write_and_print_lem, write_and_print_alone}
use project_my_os.Rtc.{Event}
use project_my_os.Paging.{Layout}
use project_my_os.SystemCall.{stdin_t, stdout_t, Kernel, Outcome, returns, faults, ◌>>>◌}
use project_my_os.SystemCall.Files.{read, write, write_op, close}
use project_my_os.SystemCall.Process.{filled}
use project_my_os.SystemCall.Vidmap.{vidmap}
use project_my_os.SystemCall.Dispatch.{Registers, number_in_table, asm_linkage}
use project_my_os.SystemCall.Descriptors.{fd_of}
use project_my_os.User.OnKernel.{on_kernel, written, write_lem}
use project_my_os.User.Syserr.{err_stdin_out, select_test}
use project_my_os.User.Syserr.Refusals.{
  Refuses, err_neg_fd-Passes, err_big_fd-Passes, err_unopened-Passes, err_vidmap-Passes,
  err_syscall_num-Passes,
}

-- The running process has only the descriptors that it started with, and nothing has been typed.
pub record IsIdle (k : Kernel) : Type 0 where
  pub stdin_used : (fd_of k 0).flags ≢ 0
  pub stdin_operations : (fd_of k 0).file_operation ≡ some stdin_t
  pub stdout_used : (fd_of k 1).flags ≢ 0
  pub stdout_operations : (fd_of k 1).file_operation ≡ some stdout_t
  pub closed : (i : ℕ) → 2 ≤ i → i ≤ 7 → (fd_of k i).flags ≡ 0
  pub nothing_typed : k.terminal.keys.buffer_content_counter ≡ 0

IsIdle-written : (k : Kernel) (buf : Bytes) (n : ℕ) → IsIdle k → IsIdle (written k buf n)
unfolding written
IsIdle-written k buf n v = record {
  stdin_used = v.stdin_used;
  stdin_operations = v.stdin_operations;
  stdout_used = v.stdout_used;
  stdout_operations = v.stdout_operations;
  closed = v.closed;
  nothing_typed = (write_and_print_lem k.terminal buf n).2;
}

-- A number that no open descriptor has is at least 2.
other_number : (n : ℕ) → pos n ≢ pos 0 → pos n ≢ pos 1 → 2 ≤ n
other_number zero h0 h1 = absurd (h0 refl)
other_number (suc zero) h0 h1 = absurd (h1 refl)
other_number (suc (suc n)) h0 h1 = omega arith

closed_flags : (k : Kernel) (n : ℕ) → IsIdle k → 2 ≤ n → ltb 7 n ≡ false → (fd_of k n).flags ≡ 0
closed_flags k n v h near = v.closed n h (omega (arith, ltb_false→le 7 n near))

close-refused : (k : Kernel) (fd : ℤ) → IsIdle k → close k fd ≡ returns (k, minus_one)
unfolding close
close-refused k (negsuc n) v = refl
close-refused k (pos n) v = elim (Bool-cases (ltb n 2)) [
  | inl first ↦ rw first refl
  | inr other ↦ elim (Bool-cases (ltb 7 n)) [
    | inl far ↦ rw (other, far) refl
    | inr near ↦
        rw (other, near, closed_flags k n v (omega (arith, ltb_false→le n 2 other)) near) refl
  ]
]

read-refused :
    (k : Kernel) (fd : ℤ) (buf : Bytes) (n : ℕ) (es : List Event)
    → IsIdle k
    → fd ≢ pos 0
    → fd ≢ pos 1
    → read k fd (some buf) (pos n) es ≡ returns (k, minus_one, [])
unfolding read
read-refused k (negsuc i) buf n es v h0 h1 = refl
read-refused k (pos i) buf n es v h0 h1 = elim (Bool-cases (ltb 7 i)) [
  | inl far ↦ rw far refl
  | inr near ↦ rw (near, closed_flags k i v (other_number i h0 h1) near) refl
]

write-refused :
    (k : Kernel) (fd : ℤ) (buf : Bytes) (n prev : ℕ)
    → IsIdle k
    → fd ≢ pos 0
    → fd ≢ pos 1
    → write k fd (some buf) (pos n) prev ≡ returns (k, minus_one)
unfolding write
write-refused k (negsuc i) buf n prev v h0 h1 = refl
write-refused k (pos i) buf n prev v h0 h1 = elim (Bool-cases (ltb 7 i)) [
  | inl far ↦ rw far refl
  | inr near ↦ rw (near, closed_flags k i v (other_number i h0 h1) near) refl
]

-- The run has printed this and returned 0.
abbrev pub Prints : Kernel → Outcome (Kernel × ℕ) → List ℕ → Type 0
Prints k o message =
    (k' : Kernel) × (o ≡ returns (k', 0)) × (k'.terminal.screen ≡ put_all k.terminal.screen message)

module _ (l : Layout) (esp ebp : ℕ) (stack : Bytes) (prev : ℕ) (es : List Event) where
  call-refused :
      (k : Kernel) (mem : Bytes) (r : Registers)
      → number_in_table r.eax ≡ none
      → (on_kernel l esp ebp stack prev es).call_sys k mem r ≡ returns (k, mem, minus_one)
  unfolding on_kernel asm_linkage
  call-refused k mem r outside = rw (outside, ◌>>>◌) refl

  vidmap-refused :
      (k : Kernel) (p : ℕ)
      → p < 0x08000000
      → (on_kernel l esp ebp stack prev es).vidmap k p ≡ returns (k, minus_one, none)
  unfolding on_kernel vidmap
  vidmap-refused k p h = rw (lt→ltb p 0x08000000 h) refl

  -- The kernel refuses what the tests ask for.
  kernel_refuses : Refuses (on_kernel l esp ebp stack prev es)
  unfolding on_kernel written
  kernel_refuses = record {
    IsIdle = IsIdle;
    screen = λ k. k.terminal.screen;
    prints = λ k buf n v fits. (
      written k buf n,
      pos n,
      write_lem k buf n prev v.stdout_used v.stdout_operations v.nothing_typed fits,
      IsIdle-written k buf n v,
      (write_and_print_alone k.terminal buf n v.nothing_typed).1,
    );
    read_law =
        λ k fd buf n v h0 h1. (filled [] buf, rw (read-refused k fd buf n es v h0 h1, ◌>>>◌) refl);
    write_law = λ k fd buf n v h0 h1. write-refused k fd buf n prev v h0 h1;
    close_law = λ k fd v. close-refused k fd v;
    vidmap_law = λ k p v h. vidmap-refused k p h;
    call_law = λ k mem r v outside. call-refused k mem r outside;
  }

  stdin_out-faults :
      (k : Kernel) (buf : Bytes)
      → IsIdle k
      → err_stdin_out (on_kernel l esp ebp stack prev es) k buf ≡ faults
  unfolding err_stdin_out on_kernel write write_op
  stdin_out-faults k buf v =
      rw (ne→== (fd_of k 0).flags 0 v.stdin_used, v.stdin_operations, ◌>>>◌) refl

  -- In a program that has opened nothing, with nothing typed since the last line, syserr's tests 1,
  -- 2, 5, 6 and 8 pass on the kernel: each prints its PASS line and nothing else and returns 0, since
  -- the kernel refuses descriptors out of range and closed ones, pointers below the program's page
  -- for vidmap, and call numbers outside the table. Test 7, which writes to stdin, does not end: the
  -- kernel calls a null pointer.
  pub select_test-on_kernel :
      (k : Kernel) (buf : Bytes) (left : Registers)
      → IsIdle k
      → let test = λ (c : ℕ). select_test (on_kernel l esp ebp stack prev es) k buf left c in
        Prints k (test b'1') (codes "err_neg_fd: PASS\n")
        × Prints k (test b'2') (codes "err_big_fd: PASS\n")
        × Prints k (test b'5') (codes "err_unopened: PASS\n")
        × Prints k (test b'6') (codes "err_vidmap: PASS\n")
        × Prints k (test b'8') (codes "err_syscall_num: PASS\n")
        × (test b'7' ≡ faults)
  unfolding select_test kernel_refuses
  select_test-on_kernel k buf left v =
      let sys = on_kernel l esp ebp stack prev es in
      (
        err_neg_fd-Passes sys kernel_refuses k buf v,
        err_big_fd-Passes sys kernel_refuses k buf v,
        err_unopened-Passes sys kernel_refuses k buf v,
        err_vidmap-Passes sys kernel_refuses k v,
        err_syscall_num-Passes sys kernel_refuses k buf left v,
        stdin_out-faults k buf v,
      )
