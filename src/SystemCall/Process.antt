-- ===== src/SystemCall/Process.antt =====
-- The process calls of student-distrib/systemcall.c: execute, halt, getargs, check_executable.
use project_my_os.Base.{
  ℕ, zero, suc, ◌+◌, ◌-◌, ◌*◌, ◌/◌, ◌%◌, ◌^◌, true, false, ◌||◌, Option, none, some, List, [], not,
  ltb, leb, ◌==◌, if◌then◌else◌, ◌>>=◌, Bytes, update, ℤ, pos, negsuc, minus_one, is_minus_one,
  codes, zero_loop, get_or, length, bit_and,
}
use project_my_os.Str.{strcpy, strncpy, bytes_of}
use project_my_os.Screen.{clear_screen}
use project_my_os.Printf.{printf}
use project_my_os.FileSystem.{FileSystem, file_read, file_load}
use project_my_os.Paging.{Layout, create_paging}
use project_my_os.SystemCall.{
  stdin_t, stdout_t, FileDescriptor, Pcb, Kernel, current, set_pcb, pcb_addr, bottom_stack,
}

abbrev pub program_starting_addr : ℕ
program_starting_addr = 0x08048000

abbrev pub program_ending_addr : ℕ
program_ending_addr = 0x083ffffc

abbrev pub arg_buf_size : ℕ
arg_buf_size = 1024

-- Where control goes: back to the caller with a result, to user code by `iret`, or to the end of
-- the parent's `execute` with the saved stack and frame pointers and the status in `%eax`.
pub data Control : Type 0 where
  result : ℤ → Control
  enters_user : ℕ → ℕ → Control
  resumes : ℕ → ℕ → ℕ → Control

-- `for (i = 0; (i < 32) && (command[i] != ' '); i++)`, `r` rounds left: the name and `i`. The loop
-- does not look for the NUL.
unfoldable pub name_loop : ℕ → ℕ → Bytes → Bytes → Bytes × ℕ
name_loop zero i command name = (name, i)
name_loop (suc r) i command name = elim (command i == b' ') [
  | true ↦ (name, i)
  | false ↦ name_loop r (i + 1) command (update name i (command i))
]

-- `while (command[i] != '\0')` with the NUL behind it, which takes the place of its last round: the
-- argument buffer and `arg_size`. A round for each byte of the buffer; `none` if it is overrun.
unfoldable pub arg_loop : ℕ → ℕ → Bytes → ℕ → Bytes → Option (Bytes × ℕ)
arg_loop zero i command n arg_buf = none
arg_loop (suc f) i command n arg_buf = elim (command i == 0) [
  | true ↦ some (arg_buf, n)
  | false ↦ arg_loop f (i + 1) command (n + 1) (update arg_buf n (command i))
]

-- Step 1 of `execute`: the command's name, the arguments and their length; `none` if the arguments
-- overrun their buffer. Index 32 of the name lies one past its array, and is taken to hit nothing
-- else.
unfoldable pub parse_command : Bytes → Bytes → Option (Bytes × Bytes × ℕ)
unfolding name_loop arg_loop update
parse_command command stack =
    let (name, i) = name_loop 32 0 command stack in
    arg_loop arg_buf_size (i + 1) command 0 stack >>= λ args.
    some (update name i 0, update args.0 args.1 0, args.1)

-- A local buffer, filled by a read that may stop short: `stack` is what it held before.
unfoldable pub filled : List ℕ → Bytes → Bytes
filled written stack i = if ltb i (length written) then get_or written i 0 else stack i

unfoldable pub check_executable : FileSystem → Bytes → Bytes → Option (FileSystem × ℤ)
unfolding filled
check_executable fs command_name stack = file_read fs false 0 4 (some command_name) >>= λ r.
    let temp = filled r.2 stack in
    if is_minus_one r.1
    then some (r.0, minus_one)
    else if not (temp 0 == 0x7f)
        || not (temp 1 == 0x45)
        || not (temp 2 == 0x4c)
        || not (temp 3 == 0x46)
    then some (r.0, minus_one)
    else some (r.0, pos 0)

-- `buf[0] | buf[1]<<8 | buf[2]<<16 | buf[3]<<24`
unfoldable pub entry_point : Bytes → ℕ
entry_point buf = buf 0 + 256 * buf 1 + 65536 * buf 2 + 16777216 * buf 3

-- `strcpy` into the name of a descriptor, and its other fields.
unfoldable pub init_fd : FileDescriptor → Bytes → FileDescriptor → Option FileDescriptor
init_fd before name d = strcpy before.file_name name >>= λ s. some (record d { file_name = s })

abbrev pub stdin_fd : FileDescriptor
stdin_fd = record {
  file_operation = some stdin_t;
  file_name = bytes_of [];
  inode = 0;
  fileposition = 0;
  flags = 1;
}

abbrev pub stdout_fd : FileDescriptor
stdout_fd = record {
  file_operation = some stdout_t;
  file_name = bytes_of [];
  inode = 0;
  fileposition = 0;
  flags = 1;
}

abbrev pub free_fd : FileDescriptor
free_fd = record {
  file_operation = none;
  file_name = bytes_of [];
  inode = 0;
  fileposition = 0;
  flags = 0;
}

-- The loop over the other descriptors, `r` from number `i` on.
unfoldable pub free_loop : ℕ → ℕ → (ℕ → FileDescriptor) → Option (ℕ → FileDescriptor)
unfolding init_fd
free_loop zero i fds = some fds
free_loop (suc r) i fds =
    init_fd (fds i) (bytes_of []) free_fd >>= λ d. free_loop r (i + 1) (update fds i d)

unfoldable pub init_fds : (ℕ → FileDescriptor) → Option (ℕ → FileDescriptor)
unfolding init_fd
init_fds fds = do
  d0 ← init_fd (fds 0) (bytes_of (codes "STDIN")) stdin_fd
  d1 ← init_fd (fds 1) (bytes_of (codes "STDOUT")) stdout_fd
  free_loop 6 2 (update (update fds 0 d0) 1 d1)

-- Steps 5 and 6 of `execute`: the control block of the new process. `esp` and `ebp` are the
-- registers; the control block that `esp` lies above is the running process's. `none` if the copy of
-- the arguments runs past the block's 1024 bytes.
unfoldable pub init_pcb : Kernel → ℕ → ℕ → Bytes → Option Kernel
unfolding set_pcb
init_pcb k esp ebp arg_buf =
    if ltb arg_buf_size k.arg_size
    then none
    else (init_fds (current k).file_array >>= λ fds. some (
        set_pcb (record k { esp0 = bottom_stack + 0x2000 - k.counter * 0x2000 - 4 })
          (record {
            pid = k.counter;
            parent_pid =
                if k.counter == 1
                then 0
                else if esp / 0x2000 * 0x2000 == pcb_addr k.counter
                then k.counter
                else (k.pcbs (esp / 0x2000 * 0x2000)).pid;
            parent_kernel_sp = esp;
            parent_kernel_bp = ebp;
            file_array = fds;
            arg = strncpy (zero_loop arg_buf_size 0 (current k).arg) arg_buf k.arg_size;
          })))

-- `execute` from the counter's increment on: paging, loading, control block, `iret`.
unfoldable pub start_process :
    Layout → Kernel → ℕ → ℕ → Bytes → Bytes → ℕ → Option (Kernel × Control)
unfolding init_pcb
start_process l k esp ebp name arg_buf entry =
    let counted = record k {
      counter = k.counter + 1;
      shell_entry_addr = if k.counter == 0 then entry else k.shell_entry_addr;
    } in
    create_paging l counted.paging counted.counter >>= λ paging.
    file_load counted.terminal.fs (some name) >>= λ loaded.
    let k' = record counted {
      paging = paging;
      terminal = record counted.terminal { fs = loaded.0 };
      images = update counted.images counted.counter loaded.2;
    } in
    if is_minus_one loaded.1
    then some (k', result minus_one)
    else (init_pcb k' esp ebp arg_buf >>= λ done.
        some (done, enters_user entry program_ending_addr))

-- `execute`. `stack` is what its local buffers hold before.
unfoldable pub execute : Layout → Kernel → ℕ → ℕ → Bytes → Option Bytes → Option (Kernel × Control)
unfolding parse_command entry_point filled
execute l k esp ebp stack none =
    if leb 6 k.counter
    then (printf k.terminal.screen (codes "Can't execute more than 6 processes\n") [] >>= λ s.
        some (record k { terminal = record k.terminal { screen = s.0 } }, result minus_one))
    else some (k, result minus_one)
execute l k esp ebp stack (some command) =
    if leb 6 k.counter
    then (printf k.terminal.screen (codes "Can't execute more than 6 processes\n") [] >>= λ s.
        some (record k { terminal = record k.terminal { screen = s.0 } }, result minus_one))
    else (parse_command command stack >>= λ parsed.
        check_executable k.terminal.fs parsed.0 stack >>= λ checked.
        let k1 = record k {
          arg_size = parsed.2;
          terminal = record k.terminal { fs = checked.0 };
        } in
        if is_minus_one checked.1
        then some (k1, result minus_one)
        else (file_read k1.terminal.fs false 24 4 (some parsed.0) >>= λ r.
            let k2 = record k1 { terminal = record k1.terminal { fs = r.0 } } in
            if is_minus_one r.1
            then some (k2, result minus_one)
            else start_process l k2 esp ebp parsed.0 parsed.1 (entry_point (filled r.2 stack))))

-- The address that `halt` loads: the directory of the parent.
unfoldable pub parent_directory : Layout → Pcb → ℕ
parent_directory l p = (l.page_directories + 4096 * p.parent_pid + 2 ^ 32 - 4096) % 2 ^ 32

-- `halt`. The first process does not end: its program starts again.
unfoldable pub halt : Layout → Kernel → ℕ → Kernel × Control
halt l k status =
    let p = current k in
    if p.pid == 1
    then (
      record k { terminal = record k.terminal { screen = clear_screen k.terminal.screen } },
      enters_user k.shell_entry_addr program_ending_addr,
    )
    else (
      record k {
        counter = k.counter - 1;
        page_dir_addr = parent_directory l p;
        paging = record k.paging { cr3 = bit_and (parent_directory l p) 0xFFFFFFE7 };
        esp0 = bottom_stack + 0x2000 - (k.counter - 1) * 0x2000 - 4;
      },
      resumes p.parent_kernel_sp p.parent_kernel_bp (status % 256),
    )

-- `getargs`: the result, and the caller's buffer if it was written.
unfoldable pub getargs : Kernel → Option Bytes → ℤ → ℤ × Option Bytes
getargs k none nbytes = (minus_one, none)
getargs k (some buf) (negsuc n) = (minus_one, none)
getargs k (some buf) (pos nbytes) =
    if ltb nbytes k.arg_size
    then (minus_one, none)
    else (pos 0, some (strncpy buf (current k).arg nbytes))
