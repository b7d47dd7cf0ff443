-- ===== src/Tests/Users.antt =====
-- The user programs of syscalls on the small kernel and on short texts.
use project_my_os.Base.{
  ℕ, ◌==◌, if◌then◌else◌, ◌≡◌, refl, true, some, [], ℤ, pos, is_zero, codes, read8, read32,
  slice_of, arith,
}
use project_my_os.Str.{bytes_of}
use project_my_os.Screen.{put_all}
use project_my_os.FileSystem.{inode_length, data_block, block_addr}
use project_my_os.FileSystem.Read.{file_byte}
use project_my_os.SystemCall.{FileDescriptor, Kernel, returns, faults}
use project_my_os.SystemCall.Process.{stdin_fd, stdout_fd, free_fd}
use project_my_os.SystemCall.Dispatch.{Registers}
use project_my_os.User.Syserr.{select_test}
use project_my_os.User.Syserr.Passing.{IsIdle, Prints, select_test-on_kernel}
use project_my_os.User.Support.{ece391_strcmp}
use project_my_os.User.Strings.{ece391_strcmp_lem}
use project_my_os.User.Cat.{cat_loop}
use project_my_os.User.OnKernel.{on_kernel, IsPrinting, cat_loop-on_kernel}
use project_my_os.Tests.Strings.{shell, she, shell-IsString, she-IsString}
use project_my_os.Tests.Machine.{layout, kernel}
use project_my_os.Tests.Descriptors.{kernel-IsReading}

kernel-IsPrinting : IsPrinting kernel (pos 2) (codes "ello")
unfolding inode_length file_byte data_block block_addr slice_of read32 read8
kernel-IsPrinting = record {
  number = 2;
  is_number = refl;
  not_stdout = omega arith;
  inode = 1;
  reading = kernel-IsReading;
  no_wrap = omega arith;
  within = omega arith;
  rest = refl;
  stdout_used = omega arith;
  stdout_operations = refl;
  nothing_typed = refl;
}

cat_loop-on_kernel_example :
    (k' : Kernel) × (cat_loop
        (on_kernel layout 0x7FE100 0x7FE180 (bytes_of []) 0 [])
        5
        kernel
        (pos 2)
        (bytes_of [])
      ≡ returns (k', pos 0))
    × (k'.terminal.screen ≡ put_all kernel.terminal.screen (codes "ello"))
cat_loop-on_kernel_example =
    cat_loop-on_kernel layout 0x7FE100 0x7FE180 (bytes_of []) 0 [] kernel (pos 2) (bytes_of [])
      (codes "ello") 5 kernel-IsPrinting (omega arith)

ece391_strcmp_lem_example :
    (d : ℤ) × (ece391_strcmp shell she ≡ some d)
    × (is_zero d ≡ true → slice_of shell 0 5 ≡ slice_of she 0 3)
    × (slice_of shell 0 5 ≡ slice_of she 0 3 → is_zero d ≡ true)
ece391_strcmp_lem_example = ece391_strcmp_lem shell she 5 3 shell-IsString she-IsString

-- The small kernel with no file open.
abbrev fresh : Kernel
fresh = record kernel { pcbs = λ a. record (kernel.pcbs a) { file_array = fresh_files } }
  where
    fresh_files : ℕ → FileDescriptor
    fresh_files i = if i == 0 then stdin_fd else if i == 1 then stdout_fd else free_fd

fresh-IsIdle : IsIdle fresh
fresh-IsIdle = record {
  stdin_used = omega arith;
  stdin_operations = refl;
  stdout_used = omega arith;
  stdout_operations = refl;
  closed = λ i low high. ground arith;
  nothing_typed = refl;
}

abbrev left_registers : Registers
left_registers = record { eax = pos 4; ebx = 1; ecx = 0x8048100; edx = 31 }

select_test-on_kernel_example :
    let test = λ (c : ℕ).
      select_test
        (on_kernel layout 0x7FE100 0x7FE180 (bytes_of []) 0 [])
        fresh
        (bytes_of [])
        left_registers
        c in
    Prints fresh (test b'1') (codes "err_neg_fd: PASS\n")
    × Prints fresh (test b'2') (codes "err_big_fd: PASS\n")
    × Prints fresh (test b'5') (codes "err_unopened: PASS\n")
    × Prints fresh (test b'6') (codes "err_vidmap: PASS\n")
    × Prints fresh (test b'8') (codes "err_syscall_num: PASS\n")
    × (test b'7' ≡ faults)
select_test-on_kernel_example =
    select_test-on_kernel layout 0x7FE100 0x7FE180 (bytes_of []) 0 [] fresh (bytes_of [])
      left_registers fresh-IsIdle
