-- ===== src/SystemCall/Files.antt =====
-- The file calls of student-distrib/systemcall.c: read, write, open, close.
use project_my_os.Base.{
  ◌/◌, ℕ, zero, suc, ◌+◌, ◌-◌, ◌*◌, ◌%◌, ◌^◌, Bool, true, false, ◌||◌, Option, none, some, List, [],
  ◌++◌, ltb, ◌==◌, if◌then◌else◌, Bytes, update, ℤ, pos, negsuc, minus_one, is_zero, is_minus_one,
  codes, slice_of,
}
use project_my_os.Str.{strlen, strncmp, strcpy, bytes_of}
use project_my_os.FileSystem.{
  FileSystem, Dentry, blank_dentry, read_dentry_by_name, file_read, file_write, file_close,
  directory_read, directory_write, directory_close,
}
use project_my_os.Keyboard.{terminal_read, terminal_write}
use project_my_os.Rtc.{Event, rtc_read, rtc_write, rtc_close}
use project_my_os.SystemCall.{
  overruns, FileOps, stdin_t, stdout_t, rtc_t, file_t, directory_t, FileDescriptor, Pcb, Kernel,
  current, set_pcb, Outcome, returns, faults, or_endless, or_overruns, or_waits, ◌>>>◌,
}

-- An `int32_t` as the `uint32_t` with the same bits.
unfoldable pub to_u32 : ℤ → ℕ
to_u32 (pos n) = n % 2 ^ 32
to_u32 (negsuc n) = 2 ^ 32 - 1 - n

-- The `int` that the four bytes at a pointer stand for.
unfoldable pub int_at : Bytes → ℤ
int_at b =
    let w = b 0 + 256 * b 1 + 65536 * b 2 + 16777216 * b 3 in
    if ltb w (2 ^ 31) then pos w else negsuc (2 ^ 32 - 1 - w)

-- `fd < 0 || fd > 7`
abbrev pub bad_fd : ℤ → Bool
bad_fd (pos n) = ltb 7 n
bad_fd (negsuc n) = true

abbrev pub fd_index : ℤ → ℕ
fd_index (pos n) = n
fd_index (negsuc n) = 0

unfoldable pub set_fs : Kernel → FileSystem → Kernel
set_fs k fs = record k { terminal = record k.terminal { fs = fs } }

-- The call through `file_operation->read`: the bytes stored from `buf[0]` on. `directory_read`
-- stores 33 bytes whatever `nbytes` says.
unfoldable pub read_op :
    Kernel → Option FileOps → Bytes → ℕ → ℤ → Bytes → List Event → Outcome (Kernel × ℤ × List ℕ)
unfolding set_fs
read_op k none buf offset nbytes name es = faults
read_op k (some stdin_t) buf offset nbytes name es =
    or_waits (terminal_read k.terminal.keys nbytes) >>> λ r.
    returns (record k { terminal = record k.terminal { keys = r.0 } }, r.1, r.2)
read_op k (some stdout_t) buf offset nbytes name es = faults
read_op k (some rtc_t) buf offset nbytes name es =
    or_waits (rtc_read k.rtc es) >>> λ r. returns (record k { rtc = r.1 }, r.0, [])
read_op k (some file_t) buf offset nbytes name es =
    or_endless (file_read k.terminal.fs false offset (to_u32 nbytes) (some name)) >>> λ r.
    returns (set_fs k r.0, r.1, r.2)
read_op k (some directory_t) buf offset nbytes name es =
    or_endless (directory_read k.terminal.fs buf) >>> λ r.
    returns (set_fs k r.0, r.1, slice_of r.2 0 33)

-- `pcb->file_array[fd].fileposition = pcb->file_array[fd].fileposition + bytes`
unfoldable pub advance : Pcb → ℕ → ℤ → Pcb
advance p fd bytes = record p { file_array = update p.file_array fd moved }
  where
    moved : FileDescriptor
    moved = record (p.file_array fd) {
      fileposition = ((p.file_array fd).fileposition + to_u32 bytes) % 2 ^ 32;
    }

-- `read`: `buf` is `none` for NULL, or the memory at the pointer. The events are what comes while
-- a read of the clock spins.
unfoldable pub read : Kernel → ℤ → Option Bytes → ℤ → List Event → Outcome (Kernel × ℤ × List ℕ)
unfolding advance set_pcb
read k fd none nbytes es = returns (k, minus_one, [])
read k fd (some buf) nbytes es =
    let d = (current k).file_array (fd_index fd) in
    if bad_fd fd
    then returns (k, minus_one, [])
    else if d.flags == 0
    then returns (k, minus_one, [])
    else (read_op k d.file_operation buf d.fileposition nbytes d.file_name es >>> λ r.
        returns (set_pcb r.0 (advance (current r.0) (fd_index fd) r.1), r.1, r.2))

-- The call through `file_operation->write`; `prev` is what the clock's register A reads as.
unfoldable pub write_op : Kernel → Option FileOps → Bytes → ℤ → ℕ → Outcome (Kernel × ℤ)
write_op k none buf nbytes prev = faults
write_op k (some stdin_t) buf nbytes prev = faults
write_op k (some stdout_t) buf nbytes prev =
    or_overruns (terminal_write k.terminal buf nbytes) >>> λ r.
    returns (record k { terminal = r.0 }, r.1)
write_op k (some rtc_t) buf nbytes prev =
    let r = rtc_write (int_at buf) nbytes prev in
    returns (record k { terminal = record k.terminal { out = k.terminal.out ++ r.1 } }, r.0)
write_op k (some file_t) buf nbytes prev = returns (k, (file_write k.terminal.fs).1)
write_op k (some directory_t) buf nbytes prev = returns (k, (directory_write k.terminal.fs).1)

unfoldable pub write : Kernel → ℤ → Option Bytes → ℤ → ℕ → Outcome (Kernel × ℤ)
write k fd none nbytes prev = returns (k, minus_one)
write k fd (some buf) nbytes prev =
    let d = (current k).file_array (fd_index fd) in
    if bad_fd fd
    then returns (k, minus_one)
    else if d.flags == 0
    then returns (k, minus_one)
    else write_op k d.file_operation buf nbytes prev

-- The search of `open` for a free descriptor, `r` rounds from number `i` on.
unfoldable pub vacant_loop : ℕ → (ℕ → FileDescriptor) → ℕ → Option ℕ
vacant_loop zero fds i = none
vacant_loop (suc r) fds i = elim ((fds i).flags == 0) [
  | true ↦ some i
  | false ↦ vacant_loop r fds (i + 1)
]

-- The table for a file type; another type leaves what the descriptor had.
unfoldable pub ops_for : ℕ → Option FileOps → Option FileOps
ops_for filetype before =
    if filetype == 2
    then some file_t
    else if filetype == 1
    then some directory_t
    else if filetype == 0
    then some rtc_t
    else before

unfoldable pub set_fd : Pcb → ℕ → FileDescriptor → Pcb
set_fd p fd d = record p { file_array = update p.file_array fd d }

-- The word at offset `at` of the name field, after the copy of a name of `n` characters: a longer
-- name than the field writes its bytes and its NUL over the words behind it.
unfoldable pub overlaid : Bytes → ℕ → ℕ → ℕ → ℕ
overlaid name n at w =
    let byte : ℕ → ℕ = λ j. if ltb n (at + j) then w / 256 ^ j % 256 else name (at + j) in
    if ltb n at then w else byte 0 + 256 * byte 1 + 65536 * byte 2 + 16777216 * byte 3

-- `strcpy` into the name of a descriptor, the last thing that `open` does to it. From 44
-- characters on it runs into the next descriptor.
unfoldable pub copy_name : FileDescriptor → Bytes → Outcome FileDescriptor
unfolding overlaid
copy_name d filename = or_endless (strlen filename) >>> λ n.
    or_endless (strcpy d.file_name filename) >>> λ name.
    if ltb 43 n
    then overruns
    else returns (record d {
      file_name = name;
      inode = overlaid name n 32 d.inode;
      fileposition = overlaid name n 36 d.fileposition;
      flags = overlaid name n 40 d.flags;
    })

-- The end of `open`: descriptor `fd` for the entry found.
unfoldable pub open_at : Kernel → Bytes → Dentry → ℕ → Outcome (Kernel × ℤ)
unfolding set_fd set_pcb ops_for copy_name
open_at k filename temp fd =
    let p = current k in
    copy_name
      (record (p.file_array fd) {
        file_operation = ops_for temp.filetype (p.file_array fd).file_operation;
        inode = temp.inode;
        fileposition = 0;
        flags = 1;
      })
      filename
    >>> λ d. returns (set_pcb k (set_fd p fd d), pos fd)

-- The two special names are compared over five characters.
unfoldable pub open_fd : Kernel → Bytes → Outcome (Kernel × ℤ)
unfolding open_at set_fd set_pcb
open_fd k filename =
    let p = current k in
    if is_zero (strncmp (bytes_of (codes "stdin")) filename 5)
    then returns (
      set_pcb k (set_fd p 0 (record (p.file_array 0) { file_operation = some stdin_t; flags = 1 })),
      pos 0,
    )
    else if is_zero (strncmp (bytes_of (codes "stdout")) filename 5)
    then returns (
      set_pcb k
          (set_fd p 1 (record (p.file_array 1) { file_operation = some stdout_t; flags = 1 })),
      pos 0,
    )
    else (or_endless (read_dentry_by_name k.terminal.fs filename blank_dentry) >>> λ found.
        if is_minus_one found.0
        then returns (k, minus_one)
        else elim (vacant_loop 6 p.file_array 2) [
          | none ↦ returns (k, minus_one)
          | some fd ↦ open_at k filename found.1 fd
        ])

-- The call through `file_operation->close`.
unfoldable pub close_op : Kernel → Option FileOps → Outcome ℤ
close_op k none = faults
close_op k (some stdin_t) = faults
close_op k (some stdout_t) = faults
close_op k (some rtc_t) = returns rtc_close
close_op k (some file_t) = returns (file_close k.terminal.fs).1
close_op k (some directory_t) = returns (directory_close k.terminal.fs).1

unfoldable pub close : Kernel → ℤ → Outcome (Kernel × ℤ)
unfolding close_op set_fd set_pcb
close k (negsuc n) = returns (k, minus_one)
close k (pos fd) =
    let p = current k in
    let d = p.file_array fd in
    if ltb fd 2 || ltb 7 fd
    then returns (k, minus_one)
    else if d.flags == 1
    then (close_op k d.file_operation >>> λ ret.
        or_endless (strcpy d.file_name (bytes_of [])) >>> λ name. returns (
          set_pcb k (
              set_fd p fd (record {
                file_operation = none;
                file_name = name;
                inode = 0;
                fileposition = 0;
                flags = 0;
              })),
          ret,
        ))
    else returns (k, minus_one)
