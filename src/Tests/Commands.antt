-- ===== src/Tests/Commands.antt =====
-- execute of student-distrib/systemcall.c on a command line and a small program.
use project_my_os.Base.{
  pos, ltb, ℕ, ◌+◌, ◌/◌, ◌≤◌, ◌<◌, ◌≡◌, refl, true, some, [], not, ◌==◌, if◌then◌else◌, update,
  arith, Bytes, codes, read8, read32, slice_of, all_below, all_below_sound,
}
use project_my_os.Str.{IsString, bytes_of}
use project_my_os.FileSystem.{
  Dentry, blank_dentry, read_dentry_by_name, success, dentry_name, dentry_inode, inode_length,
  data_block, block_addr,
}
use project_my_os.FileSystem.Read.{file_byte}
use project_my_os.FileSystem.Name.{read_dentry_by_name_found}
use project_my_os.SystemCall.{Kernel}
use project_my_os.SystemCall.Process.{
  enters_user, name_loop, arg_loop, parse_command, execute, getargs,
}
use project_my_os.SystemCall.Command.{IsCommand, parse_command_lem}
use project_my_os.SystemCall.Position.{IsFile}
use project_my_os.SystemCall.Arguments.{execute-getargs}
use project_my_os.SystemCall.Execute.{IsElf}
use project_my_os.Tests.Fixture.{elf_image, lengths, elf_image-NamesEnd}
use project_my_os.Tests.Machine.{layout, kernel}

abbrev pub command : Bytes
command = bytes_of (codes "frame -a")

blank_free : all_below 5 (λ i. not (command i == b' ')) ≡ true
unfolding all_below
blank_free = refl

no_nul : all_below 2 (λ j. not (command (6 + j) == 0)) ≡ true
unfolding all_below
no_nul = refl

command-IsCommand : IsCommand command 5 2
command-IsCommand = record {
  no_blank = λ i h. ground (arith, all_below_sound 5 (λ i. not (command i == b' ')) i blank_free h);
  blank = refl;
  short = omega arith;
  chars = λ j h. ground (arith, all_below_sound 2 (λ j. not (command (6 + j) == 0)) j no_nul h);
  nul = refl;
  fits = omega arith;
}

parse_command_lem_example :
    (name : Bytes) × (args : Bytes) × (parse_command command (bytes_of []) ≡ some (name, args, 2))
    × ((k : ℕ) → k < 5 → name k ≡ command k)
    × (name 5 ≡ 0)
    × ((k : ℕ) → k < 2 → args k ≡ command (5 + 1 + k))
    × (args 2 ≡ 0)
parse_command_lem_example = parse_command_lem command 5 2 command-IsCommand (bytes_of [])

-- What the two buffers of `execute` hold after that command.
abbrev pub name : Bytes
name i =
    if i == 5
    then 0
    else if i == 4
    then 101
    else if i == 3
    then 109
    else if i == 2
    then 97
    else if i == 1
    then 114
    else if i == 0
    then 102
    else 0

abbrev pub args : Bytes
args i = if i == 2 then 0 else if i == 1 then 97 else if i == 0 then 45 else 0

pub parsed : parse_command command (bytes_of []) ≡ some (name, args, 2)
unfolding parse_command name_loop arg_loop update
parsed = refl

pub name-IsString : IsString name 5
name-IsString = record { nul = refl; chars = λ i h. ground arith; fits = omega arith }

name_found :
    (d : Dentry) × (read_dentry_by_name elf_image name blank_dentry ≡ some (success, d))
    × (d.inode ≡ 1)
unfolding slice_of dentry_name dentry_inode read32 read8
name_found =
    let (d, e, entry) =
      read_dentry_by_name_found elf_image (lengths 5) name 5 elf_image-NamesEnd (λ i. ground arith)
        name-IsString (omega arith) blank_dentry 0 (omega arith) (omega arith) refl
        (λ j l. absurd (omega arith)) in
    (d, e, entry.inode)

elf-blocks : (k : ℕ) → k ≤ 4095 → data_block elf_image 1 (k / 4096) < 2
unfolding data_block read32 read8
elf-blocks k h = let e : k / 4096 ≡ 0 = omega arith in rw e (omega arith)

elf-length : inode_length elf_image 1 ≡ 28
unfolding inode_length read32 read8
elf-length = refl

pub name-IsFile : IsFile elf_image name 1
name-IsFile = record {
  entry = name_found.0;
  found = name_found.1;
  node = name_found.2;
  inode_good = omega arith;
  blocks_good = λ k h. elf-blocks k (omega (arith, elf-length));
}

pub elf_image-IsElf : IsElf elf_image 1
unfolding file_byte data_block block_addr read32 read8
elf_image-IsElf = record {
  header = omega (arith, elf-length);
  fits = omega (arith, elf-length);
  magic_0 = refl;
  magic_1 = refl;
  magic_2 = refl;
  magic_3 = refl;
}

-- The kernel with the program in its file system.
abbrev pub loaded : Kernel
loaded = record kernel { terminal = record kernel.terminal { fs = elf_image } }

args-IsString : IsString args 2
args-IsString = record { nul = refl; chars = λ i h. ground arith; fits = omega arith }

execute-getargs_example :
    (done : Kernel) × (entry : ℕ) × (execute layout loaded 0x7FE100 0x7FE180
        (bytes_of [])
        (some command)
      ≡ some (done, enters_user entry 0x083ffffc))
    × (out : Bytes) × (getargs done (some (bytes_of [])) (pos 4) ≡ (pos 0, some out))
    × ((i : ℕ) → out i ≡ (if ltb i 4 then if ltb i 2 then args i else 0 else bytes_of [] i))
execute-getargs_example =
    execute-getargs layout loaded 0x7FE100 0x7FE180 (bytes_of []) command name args (bytes_of []) 2
      1 5 4 (omega arith) parsed name-IsString (omega arith) name-IsFile elf_image-IsElf
      args-IsString (omega arith) (omega arith)
