-- ===== src/SystemCall/Loading.antt =====
-- execute of student-distrib/systemcall.c from the page directory on: it succeeds, and what it
-- loads.
use project_my_os.Base.{
  ◌*◌, zero_loop, ℕ, zero, suc, ◌+◌, ◌-◌, ◌^◌, ◌<◌, ◌≡◌, refl, some, [], ◌==◌, if◌then◌else◌, ◌>>=◌,
  update, pos, arith, Bytes, codes, slice_of, ne→==, min, ap, ap₂, ◌∙◌, ◌≤◌,
}
use project_my_os.Str.{strncpy, IsString, bytes_of}
use project_my_os.Str.Laws.{strcpy_lem, strlen_lem, bytes_of-IsString, nonzero}
use project_my_os.FileSystem.{FileSystem, file_load, after_read, read_data, inode_length}
use project_my_os.FileSystem.Read.{file_byte}
use project_my_os.Paging.{Layout}
use project_my_os.Paging.Create.{create_paging_lem}
use project_my_os.SystemCall.{bottom_stack, FileDescriptor, Pcb, Kernel, current, set_pcb}
use project_my_os.SystemCall.Process.{
  enters_user, init_fd, free_loop, free_fd, stdin_fd, stdout_fd, init_fds, init_pcb, start_process,
}
use project_my_os.SystemCall.Position.{IsFile, read_data_any}
use project_my_os.SystemCall.Start.{set_up, block, init_pcb-block}
use project_my_os.SystemCall.Descriptors.{current-set_pcb, update-same}

init_fd_lem :
    (before : FileDescriptor) (name : Bytes) (d : FileDescriptor) (n : ℕ)
    → IsString name n
    → (r : FileDescriptor) × (init_fd before name d ≡ some r)
unfolding init_fd
init_fd_lem before name d n v =
    let (out, e, inside, after) = strcpy_lem before.file_name name n v in
    (record d { file_name = out }, rw (e, ◌>>=◌) refl)

no_name : IsString (bytes_of []) 0
unfolding nonzero
no_name = bytes_of-IsString [] refl (omega arith)

free_loop_lem :
    (r i : ℕ) (fds : ℕ → FileDescriptor)
    → (done : ℕ → FileDescriptor) × (free_loop r i fds ≡ some done)
unfolding free_loop
free_loop_lem zero i fds = (fds, refl)
free_loop_lem (suc r) i fds =
    let (d, e) = init_fd_lem (fds i) (bytes_of []) free_fd 0 no_name in
    let (done, rest) = free_loop_lem r (i + 1) (update fds i d) in (done, rw (e, ◌>>=◌) rest)

init_fds_lem : (fds : ℕ → FileDescriptor) → (done : ℕ → FileDescriptor) × (init_fds fds ≡ some done)
unfolding init_fds nonzero
init_fds_lem fds =
    let (d0, e0) =
      init_fd_lem (fds 0) (bytes_of (codes "STDIN")) stdin_fd 5
        (bytes_of-IsString (codes "STDIN") refl (omega arith)) in
    let (d1, e1) =
      init_fd_lem (fds 1) (bytes_of (codes "STDOUT")) stdout_fd 6
        (bytes_of-IsString (codes "STDOUT") refl (omega arith)) in
    let (done, e) = free_loop_lem 6 2 (update (update fds 0 d0) 1 d1) in
    (done, rw (e0, e1, ◌>>=◌) e)

-- The control block is set up if the arguments fit, and only it and the kernel stack change.
init_pcb-set_up :
    (k : Kernel) (esp ebp : ℕ) (arg_buf : Bytes)
    → k.arg_size ≤ 1024
    → (fds : ℕ → FileDescriptor) × (init_pcb k esp ebp arg_buf
        ≡ some (set_up k (block k esp ebp arg_buf fds)))
init_pcb-set_up k esp ebp arg_buf room =
    let (fds, e) = init_fds_lem (current k).file_array in
    (fds, init_pcb-block k esp ebp arg_buf fds (ground arith) e)

file_load_lem :
    (fs : FileSystem) (name : Bytes) (inode n : ℕ)
    → IsString name n
    → 0 < n
    → IsFile fs name inode
    → inode_length fs inode < 2 ^ 32
    → (fs' : FileSystem) × (file_load fs (some name)
        ≡ some (
          fs',
          pos (inode_length fs inode),
          slice_of (file_byte fs inode) 0 (inode_length fs inode),
        ))
unfolding file_load after_read
file_load_lem fs name inode n v z f w =
    let len : ℕ = inode_length fs inode in
    let r = read_data_any fs name inode 0 len f (omega arith) in
    let m : min len (len - 0) ≡ len = omega arith in
    (
      record fs { length_of_file = (read_data fs inode 0 len).length_of_file },
      rw (strlen_lem name n v, ne→== n 0 (omega arith), f.found, ◌>>=◌, f.node)
          (ap₂
            (λ a b.
              some (record fs { length_of_file = (read_data fs inode 0 len).length_of_file }, a, b))
            (r.0 ∙ ap pos m) (r.1 ∙ ap (slice_of (file_byte fs inode) 0) m)),
    )

set_up-rest :
    (k : Kernel) (p : Pcb)
    → ((set_up k p).images ≡ k.images)
      × ((set_up k p).counter ≡ k.counter)
      × ((set_up k p).arg_size ≡ k.arg_size)
      × (current (set_up k p) ≡ p)
unfolding set_up set_pcb
set_up-rest k p = (
  refl,
  refl,
  refl,
  current-set_pcb (record k { esp0 = bottom_stack + 0x2000 - k.counter * 0x2000 - 4 }) p,
)

block-arg :
    (k : Kernel) (esp ebp : ℕ) (arg_buf : Bytes) (fds : ℕ → FileDescriptor)
    → (block k esp ebp arg_buf fds).arg
      ≡ strncpy (zero_loop 1024 0 (current k).arg) arg_buf k.arg_size
unfolding block
block-arg k esp ebp arg_buf fds = refl

-- What the new process is given: its arguments, copied over 1024 NULs, and their number.
pub record HasArguments (done : Kernel) (arg_buf : Bytes) (m : ℕ) : Type 0 where
  pub size : done.arg_size ≡ m
  pub before : Bytes
  pub copied : (current done).arg ≡ strncpy (zero_loop 1024 0 before) arg_buf m

-- Where fewer than six processes run and the directory has the program's file in good blocks, the
-- new process is started: control goes to its entry point with the stack at the end of its page,
-- the number of processes is one more, its page holds exactly the bytes of the whole file, and its
-- control block has the arguments.
pub start_process_runs :
    (l : Layout) (k : Kernel) (esp ebp : ℕ) (name arg_buf : Bytes) (entry inode n : ℕ)
    → k.counter < 6
    → IsString name n
    → 0 < n
    → IsFile k.terminal.fs name inode
    → inode_length k.terminal.fs inode < 2 ^ 32
    → k.arg_size ≤ 1024
    → (done : Kernel) × (start_process l k esp ebp name arg_buf entry
        ≡ some (done, enters_user entry 0x083ffffc))
      × (done.counter ≡ k.counter + 1)
      × (done.images (k.counter + 1)
          ≡ slice_of (file_byte k.terminal.fs inode) 0 (inode_length k.terminal.fs inode))
      × HasArguments done arg_buf k.arg_size
unfolding start_process
start_process_runs l k esp ebp name arg_buf entry inode n room v z f w short =
    let (paging, made, own, others, cr3) =
      create_paging_lem l k.paging (k.counter + 1) (omega arith) (omega arith) in
    let (fs', read) = file_load_lem k.terminal.fs name inode n v z f w in
    let bytes = slice_of (file_byte k.terminal.fs inode) 0 (inode_length k.terminal.fs inode) in
    let k' : Kernel = record k {
      counter = k.counter + 1;
      shell_entry_addr = if k.counter == 0 then entry else k.shell_entry_addr;
      paging = paging;
      terminal = record k.terminal { fs = fs' };
      images = update k.images (k.counter + 1) bytes;
    } in
    let (fds, init) = init_pcb-set_up k' esp ebp arg_buf short in
    let p : Pcb = block k' esp ebp arg_buf fds in
    let kept = set_up-rest k' p in
    (
      set_up k' p,
      rw (made, read, ◌>>=◌, init),
      kept.1,
      ap (λ f. f (k.counter + 1)) kept.0 ∙ update-same k.images (k.counter + 1) bytes,
      record {
        size = kept.2;
        before = (current k').arg;
        copied = ap (λ q. q.arg) kept.3 ∙ block-arg k' esp ebp arg_buf fds;
      },
    )
