-- ===== src/SystemCall/Execute.antt =====
-- execute of student-distrib/systemcall.c on the file of a program.
use project_my_os.Base.{
  ℕ, ◌+◌, ◌*◌, ◌^◌, ◌≤◌, ◌<◌, ◌≡◌, refl, false, some, ◌>>=◌, ℤ, pos, arith, Bytes, slice_of,
  leb_of_lt, ap, ap₂, ◌∙◌,
}
use project_my_os.Str.{IsString}
use project_my_os.FileSystem.{FileSystem, file_read, inode_length}
use project_my_os.FileSystem.Read.{file_byte}
use project_my_os.Paging.{Layout}
use project_my_os.SystemCall.{Kernel}
use project_my_os.SystemCall.Process.{
  enters_user, parse_command, filled, check_executable, entry_point, start_process, execute,
}
use project_my_os.SystemCall.Position.{IsFile, file_read_lem, IsFile-length, bytes_left}
use project_my_os.SystemCall.Sequence.{file_byte-length, inode_length-length}
use project_my_os.SystemCall.Loading.{HasArguments, start_process_runs}

-- A file long enough for an ELF header, with the four magic bytes.
pub record IsElf (fs : FileSystem) (inode : ℕ) : Type 0 where
  pub header : 28 ≤ inode_length fs inode
  pub fits : inode_length fs inode < 2 ^ 32
  pub magic_0 : file_byte fs inode 0 ≡ 0x7f
  pub magic_1 : file_byte fs inode 1 ≡ 0x45
  pub magic_2 : file_byte fs inode 2 ≡ 0x4c
  pub magic_3 : file_byte fs inode 3 ≡ 0x46

-- The file system after a read.
abbrev with_length : FileSystem → ℤ → FileSystem
with_length fs x = record fs { length_of_file = x }

file_read-four :
    (fs : FileSystem) (name : Bytes) (inode p : ℕ)
    → IsFile fs name inode
    → p + 4 ≤ inode_length fs inode
    → p + 4 < 2 ^ 32
    → (x : ℤ) × (file_read fs false p 4 (some name)
        ≡ some (with_length fs x, pos 4, slice_of (file_byte fs inode) p 4))
file_read-four fs name inode p f h w =
    let (fs', e, x, same) = file_read_lem fs name inode p 4 f (omega arith) w in
    let four : bytes_left fs inode p 4 ≡ 4 = omega arith in
    (x, e ∙ ap₂ (λ g m. some (g, pos m, slice_of (file_byte fs inode) p m)) same four)

filled-four :
    (f stack : Bytes) (p : ℕ)
    → (filled (slice_of f p 4) stack 0 ≡ f p)
      × (filled (slice_of f p 4) stack 1 ≡ f (p + 1))
      × (filled (slice_of f p 4) stack 2 ≡ f (p + 1 + 1))
      × (filled (slice_of f p 4) stack 3 ≡ f (p + 1 + 1 + 1))
unfolding filled slice_of
filled-four f stack p = (refl, refl, refl, refl)

check_executable_lem :
    (fs : FileSystem) (name stack : Bytes) (inode : ℕ)
    → IsFile fs name inode
    → IsElf fs inode
    → (x : ℤ) × (check_executable fs name stack ≡ some (with_length fs x, pos 0))
unfolding check_executable
check_executable_lem fs name stack inode f elf =
    let (x, e) = file_read-four fs name inode 0 f (omega (arith, elf.header)) (omega arith) in
    let b = filled-four (file_byte fs inode) stack 0 in
    (x, rw (e, ◌>>=◌, b.0 ∙ elf.magic_0, b.1 ∙ elf.magic_1, b.2 ∙ elf.magic_2, b.3 ∙ elf.magic_3))

-- The word at the four bytes of a file from a position on, lowest byte first.
abbrev word_at : FileSystem → ℕ → ℕ → ℕ
word_at fs inode p =
    file_byte fs inode p
    + 256 * file_byte fs inode (p + 1)
    + 65536 * file_byte fs inode (p + 2)
    + 16777216 * file_byte fs inode (p + 3)

entry_point_lem :
    (fs : FileSystem) (inode : ℕ) (stack : Bytes)
    → entry_point (filled (slice_of (file_byte fs inode) 24 4) stack) ≡ word_at fs inode 24
unfolding entry_point
entry_point_lem fs inode stack =
    let b = filled-four (file_byte fs inode) stack 24 in rw (b.0, b.1, b.2, b.3) refl

-- The state when the entry point has been read.
ready : Kernel → ℕ → ℤ → Kernel
ready k m x = record k {
  arg_size = m;
  terminal = record k.terminal { fs = with_length k.terminal.fs x };
}

execute-start_process :
    (l : Layout) (k : Kernel) (esp ebp : ℕ) (stack command name args : Bytes) (m inode : ℕ)
    → k.counter < 6
    → parse_command command stack ≡ some (name, args, m)
    → IsFile k.terminal.fs name inode
    → IsElf k.terminal.fs inode
    → (x : ℤ) × (execute l k esp ebp stack (some command)
        ≡ start_process l (ready k m x) esp ebp name args (word_at k.terminal.fs inode 24))
unfolding execute ready
execute-start_process l k esp ebp stack command name args m inode room parsed f elf =
    let fs : FileSystem = k.terminal.fs in
    let (x, checked) = check_executable_lem fs name stack inode f elf in
    let (y, e) =
      file_read-four (with_length fs x) name inode 24 (IsFile-length fs x name inode f)
        (rw (inode_length-length fs x inode) elf.header) (omega arith) in
    let read : file_read (with_length fs x) false 24 4 (some name)
        ≡ some (with_length fs y, pos 4, slice_of (file_byte fs inode) 24 4) =
      e ∙ ap (λ b. some (with_length fs y, pos 4, slice_of b 24 4)) (file_byte-length fs x inode) in
    (
      y,
      rw (leb_of_lt 6 k.counter room, parsed, checked, read, ◌>>=◌, entry_point_lem fs inode stack),
    )

pub execute_runs :
    (l : Layout) (k : Kernel) (esp ebp : ℕ) (stack command name args : Bytes) (m inode n : ℕ)
    → k.counter < 6
    → parse_command command stack ≡ some (name, args, m)
    → m < 1024
    → IsString name n
    → 0 < n
    → IsFile k.terminal.fs name inode
    → IsElf k.terminal.fs inode
    → let b = file_byte k.terminal.fs inode in
      (done : Kernel) × (execute l k esp ebp stack (some command)
        ≡ some (done, enters_user (b 24 + 256 * b 25 + 65536 * b 26 + 16777216 * b 27) 0x083ffffc))
      × (done.counter ≡ k.counter + 1)
      × (done.images (k.counter + 1) ≡ slice_of b 0 (inode_length k.terminal.fs inode))
      × HasArguments done args m
unfolding ready
execute_runs l k esp ebp stack command name args m inode n room parsed short v z f elf =
    let fs : FileSystem = k.terminal.fs in
    let (x, started) =
      execute-start_process l k esp ebp stack command name args m inode room parsed f elf in
    let (done, runs, counted, image, given) =
      start_process_runs l (ready k m x) esp ebp name args (word_at fs inode 24) inode n room v z
        (IsFile-length fs x name inode f) (rw (inode_length-length fs x inode) elf.fits)
        (omega arith) in
    (
      done,
      started ∙ runs,
      counted,
      image
          ∙ ap₂ (λ b len. slice_of b 0 len) (file_byte-length fs x inode)
              (inode_length-length fs x inode),
      given,
    )
