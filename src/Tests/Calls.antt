-- ===== src/Tests/Calls.antt =====
-- Calls through asm_linkage of student-distrib/handler.S, and a system that runs.
use project_my_os.Base.{
  ℕ, ◌+◌, ◌-◌, ◌≡◌, refl, some, [], not, ◌&&◌, ltb, if◌then◌else◌, Bytes, pos, minus_one, read8,
  read32, slice_of, arith,
}
use project_my_os.Str.{bytes_of}
use project_my_os.FileSystem.{inode_length, data_block, block_addr}
use project_my_os.FileSystem.Read.{file_byte}
use project_my_os.SystemCall.{Kernel, returns}
use project_my_os.SystemCall.Process.{enters_user, result, execute}
use project_my_os.SystemCall.Execute.{execute_runs}
use project_my_os.SystemCall.Loading.{HasArguments}
use project_my_os.SystemCall.Descriptors.{fd_of}
use project_my_os.SystemCall.Position.{IsReading}
use project_my_os.SystemCall.Dispatch.{Registers, Surroundings, number_in_table, asm_linkage}
use project_my_os.SystemCall.Population.{IsPopulated}
use project_my_os.SystemCall.Running.{booted, called, IsRunningSystem-IsPopulated}
use project_my_os.SystemCall.Linkage.{asm_linkage_reads}
use project_my_os.Tests.Machine.{layout, kernel}
use project_my_os.Tests.Fixture.{elf}
use project_my_os.Tests.Descriptors.{kernel-IsReading}
use project_my_os.Tests.Commands.{
  command, args, name, loaded, parsed, name-IsString, name-IsFile, elf_image-IsElf,
}

abbrev surroundings : Surroundings
surroundings = record {
  layout = layout;
  esp = 0x7FE100;
  ebp = 0x7FE180;
  stack = bytes_of [];
  prev = 0;
  events = [];
}

-- Before the first program.
abbrev idle : Kernel
idle = record loaded { counter = 0 }

first_program :
    (done : Kernel) × (execute layout idle 0x7FE100 0x7FE180 (bytes_of []) (some command)
      ≡ some (done, enters_user 0x08048094 0x083ffffc))
    × (done.counter ≡ 1)
    × (done.images 1 ≡ elf)
    × HasArguments done args 2
unfolding file_byte data_block block_addr inode_length slice_of read32 read8
first_program =
    execute_runs layout idle 0x7FE100 0x7FE180 (bytes_of []) command name args 2 1 5 (omega arith)
      parsed (omega arith) name-IsString (omega arith) name-IsFile elf_image-IsElf

-- A call with a number that is not in the table.
abbrev bad_call : Registers
bad_call = record { eax = pos 11; ebx = 0; ecx = 0; edx = 0 }

bad_call_returns :
    (k : Kernel)
    → asm_linkage surroundings (bytes_of []) bad_call k ≡ returns (k, bytes_of [], result minus_one)
unfolding asm_linkage number_in_table
bad_call_returns k = refl

IsRunningSystem-IsPopulated_example : IsPopulated first_program.0
IsRunningSystem-IsPopulated_example = IsRunningSystem-IsPopulated (
    called surroundings (bytes_of []) (bytes_of []) bad_call (result minus_one)
      (booted layout 0x7FE100 0x7FE180 0x08048094 0x083ffffc (bytes_of []) (some command) idle refl
        first_program.1)
      (bad_call_returns first_program.0) (λ e. refl))

abbrev read_call : Registers
read_call = record { eax = pos 3; ebx = 2; ecx = 0x8048100; edx = 3 }

asm_linkage_reads_example :
    (k' : Kernel) × (mem' : Bytes) × (asm_linkage surroundings (bytes_of []) read_call kernel
      ≡ returns (k', mem', result (pos 3)))
    × ((a : ℕ)
        → mem' a ≡ (
            if not (ltb a 0x8048100) && ltb (a - 0x8048100) 3
            then file_byte kernel.terminal.fs 1 (1 + (a - 0x8048100))
            else bytes_of [] a))
    × ((fd_of k' 2).fileposition ≡ 4)
    × IsReading k' 2 1
unfolding inode_length read32 read8
asm_linkage_reads_example =
    asm_linkage_reads surroundings (bytes_of []) read_call kernel 1 kernel-IsReading refl
      (omega arith) (omega arith) (omega arith) (omega arith)
