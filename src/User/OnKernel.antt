-- ===== src/User/OnKernel.antt =====
-- The calls of a user program made by the kernel, and cat on top of it: the operations of
-- student-distrib/systemcall.c fill the interface of the programs of syscalls.
use project_my_os.Base.{
  ℕ, ◌+◌, ◌-◌, ◌^◌, ◌≤◌, ◌<◌, ◌≡◌, ◌≢◌, refl, sym, ◌∙◌, ap, ap₂, min, Option, none, some, Bytes, ℤ,
  pos, List, length, slice_of, take, drop, length-slice_of, take-slice_of, drop-slice_of,
  slice_of-shift, update-other, arith, lt→ltb, ne→==,
}
use project_my_os.Screen.{put_all}
use project_my_os.FileSystem.{FileSystem, inode_length}
use project_my_os.FileSystem.Read.{file_byte}
use project_my_os.Keyboard.{Terminal, move_cursor, print_buf, write_and_print}
use project_my_os.Keyboard.ReadWrite.{
  write_and_print_lem, write_and_print_alone, terminal_write-fits,
}
use project_my_os.Rtc.{Event}
use project_my_os.Paging.{Layout}
use project_my_os.SystemCall.{
  stdout_t, Kernel, current, set_pcb, Outcome, returns, waits, or_overruns, or_endless, ◌>>>◌,
}
use project_my_os.SystemCall.Files.{set_fs, advance, read, write, write_op, open_fd, close}
use project_my_os.SystemCall.Process.{
  Control, result, enters_user, resumes, filled, getargs, execute,
}
use project_my_os.SystemCall.Vidmap.{vidmap}
use project_my_os.SystemCall.Dispatch.{asm_linkage}
use project_my_os.SystemCall.Descriptors.{fd_of, current-set_pcb}
use project_my_os.SystemCall.Position.{IsReading, after, read-after, after-fd, IsFile-length}
use project_my_os.SystemCall.Sequence.{file_byte-length, inode_length-length}
use project_my_os.SystemCall.Linkage.{get_or-slice_of}
use project_my_os.User.{System}
use project_my_os.User.Cat.{Reads, cat_loop, cat_loop_lem}

-- The buffer of the caller after a `getargs`.
given : Bytes → Option Bytes → Bytes
given buf none = buf
given buf (some out) = out

-- `execute` comes back at once only if it fails; else the caller stands still while the new
-- program runs.
executed : Kernel × Control → Outcome (Kernel × ℤ)
executed (k, result r) = returns (k, r)
executed (k, enters_user at sp) = waits
executed (k, resumes sp bp status) = waits

-- The same for a call by its number; `halt` does not come back either.
called : Kernel × Bytes × Control → Outcome (Kernel × Bytes × ℤ)
called (k, mem, result r) = returns (k, mem, r)
called (k, mem, enters_user at sp) = waits
called (k, mem, resumes sp bp status) = waits

-- The calls on the kernel; the surroundings are as for asm_linkage.
unfoldable pub on_kernel :
    Layout → (esp ebp : ℕ) → (stack : Bytes) → (prev : ℕ) → List Event → System Kernel
unfolding given executed filled called
on_kernel l esp ebp stack prev es = record {
  read = λ k fd buf n. read k fd (some buf) (pos n) es >>> λ r. returns (r.0, r.1, filled r.2 buf);
  write = λ k fd buf n. write k fd (some buf) n prev;
  open_file = open_fd;
  close = close;
  getargs = λ k buf n. let a = getargs k (some buf) (pos n) in returns (k, a.0, given buf a.1);
  execute = λ k command. or_endless (execute l k esp ebp stack (some command)) >>> executed;
  vidmap = λ k p. or_overruns (vidmap l k p);
  call_sys = λ k mem r.
      asm_linkage
        (record { layout = l; esp = esp; ebp = ebp; stack = stack; prev = prev; events = es }) mem r
        k
      >>> called;
}

-- Descriptor `fd` is open on a file of which these bytes are left, descriptor 1 is the terminal's,
-- and nothing has been typed since the last line.
pub record IsPrinting (k : Kernel) (fd : ℤ) (left : List ℕ) : Type 0 where
  pub number : ℕ
  pub is_number : fd ≡ pos number
  pub not_stdout : number ≢ 1
  pub inode : ℕ
  pub reading : IsReading k number inode
  pub no_wrap : inode_length k.terminal.fs inode + 1024 < 2 ^ 32
  pub within : (fd_of k number).fileposition ≤ inode_length k.terminal.fs inode
  pub rest :
      left
      ≡ slice_of
          (file_byte k.terminal.fs inode)
          (fd_of k number).fileposition
          (inode_length k.terminal.fs inode - (fd_of k number).fileposition)
  pub stdout_used : (fd_of k 1).flags ≢ 0
  pub stdout_operations : (fd_of k 1).file_operation ≡ some stdout_t
  pub nothing_typed : k.terminal.keys.buffer_content_counter ≡ 0

-- What a read that stores some bytes leaves in the buffer.
filled_at : (f buf : Bytes) (p m j : ℕ) → j < m → filled (slice_of f p m) buf (0 + j) ≡ f (p + j)
unfolding filled
filled_at f buf p m j h =
    let e : 0 + j ≡ j = omega arith in
    rw (e, length-slice_of f p m, lt→ltb j m h) (get_or-slice_of f p m j h)

filled-slice_of :
    (f buf : Bytes) (p m : ℕ) → slice_of (filled (slice_of f p m) buf) 0 m ≡ slice_of f p m
filled-slice_of f buf p m =
    slice_of-shift (filled (slice_of f p m) buf) f 0 p m (λ j h. filled_at f buf p m j h)

-- A write changes neither the files nor the descriptors.
IsPrinting-write :
    (k k' : Kernel) (fd : ℤ) (left : List ℕ)
    → fd_of k' ≡ fd_of k
    → k'.terminal.fs ≡ k.terminal.fs
    → k'.terminal.keys.buffer_content_counter ≡ 0
    → IsPrinting k fd left
    → IsPrinting k' fd left
IsPrinting-write k k' fd left fds files empty v = record {
  number = v.number;
  is_number = v.is_number;
  not_stdout = v.not_stdout;
  inode = v.inode;
  reading = record {
    in_range = v.reading.in_range;
    in_use = rw fds v.reading.in_use;
    operations = rw fds v.reading.operations;
    file = rw (fds, files) v.reading.file;
  };
  no_wrap = rw files v.no_wrap;
  within = rw (fds, files) v.within;
  rest = rw (fds, files) v.rest;
  stdout_used = rw fds v.stdout_used;
  stdout_operations = rw fds v.stdout_operations;
  nothing_typed = empty;
}

-- The state after a write to the terminal.
unfoldable pub written : Kernel → Bytes → ℕ → Kernel
written k buf n = record k { terminal = (write_and_print k.terminal buf (pos n)).0 }

pub written-fds : (k : Kernel) (buf : Bytes) (n : ℕ) → fd_of (written k buf n) ≡ fd_of k
unfolding written
written-fds k buf n = refl

written-fs : (k : Kernel) (buf : Bytes) (n : ℕ) → (written k buf n).terminal.fs ≡ k.terminal.fs
unfolding written write_and_print print_buf move_cursor
written-fs k buf n = refl

pub write_lem :
    (k : Kernel) (buf : Bytes) (n prev : ℕ)
    → (fd_of k 1).flags ≢ 0
    → (fd_of k 1).file_operation ≡ some stdout_t
    → k.terminal.keys.buffer_content_counter ≡ 0
    → n ≤ 1024
    → write k (pos 1) (some buf) (pos n) prev ≡ returns (written k buf n, pos n)
unfolding write write_op written
write_lem k buf n prev used operations empty fits =
    rw
      (
        ne→== (fd_of k 1).flags 0 used,
        operations,
        terminal_write-fits k.terminal buf n (omega arith),
        ◌>>>◌,
      )
      (ap (λ (w : ℤ). returns (written k buf n, w))
        (write_and_print_alone k.terminal buf n empty).0)

-- The state after a read of `m` bytes.
read_state : Kernel → ℕ → ℤ → ℕ → Kernel
read_state k n x m = after k n (record k.terminal.fs { length_of_file = x }) m

read_state-other :
    (k : Kernel) (n : ℕ) (x : ℤ) (m j : ℕ) → j ≢ n → fd_of (read_state k n x m) j ≡ fd_of k j
unfolding read_state after set_fs advance
read_state-other k n x m j h =
    ap (λ p. p.file_array j)
      (current-set_pcb (set_fs k (record k.terminal.fs { length_of_file = x }))
        (advance (current k) n (pos m)))
    ∙ update-other (current k).file_array n _ j h

read_state-terminal :
    (k : Kernel) (n : ℕ) (x : ℤ) (m : ℕ)
    → (read_state k n x m).terminal
      ≡ record k.terminal { fs = record k.terminal.fs { length_of_file = x } }
unfolding read_state after set_fs set_pcb
read_state-terminal k n x m = refl

same_slice :
    (f g : Bytes) (a b n n' : ℕ) → g ≡ f → b ≡ a → n' ≡ n → slice_of f a n ≡ slice_of g b n'
same_slice f g a b n n' e e' e'' = rw (e, e', e'') refl

IsPrinting-read :
    (k : Kernel) (fd : ℤ) (left : List ℕ) (v : IsPrinting k fd left) (x : ℤ)
    → let p = (fd_of k v.number).fileposition in
      let m = min 1024 (inode_length k.terminal.fs v.inode - p) in
      IsPrinting (read_state k v.number x m) fd (drop 1024 left)
unfolding read_state
IsPrinting-read k fd left v x =
    let p : ℕ = (fd_of k v.number).fileposition in
    let len : ℕ = inode_length k.terminal.fs v.inode in
    let m : ℕ = min 1024 (len - p) in
    let k' : Kernel = read_state k v.number x m in
    let moved : fd_of k' v.number ≡ record (fd_of k v.number) { fileposition = p + m } =
      after-fd k v.number m (record k.terminal.fs { length_of_file = x })
        (omega (arith, v.no_wrap, v.within)) in
    let files : k'.terminal
        ≡ record k.terminal { fs = record k.terminal.fs { length_of_file = x } } =
      read_state-terminal k v.number x m in
    let stdout : fd_of k' 1 ≡ fd_of k 1 =
      read_state-other k v.number x m 1 (λ e. v.not_stdout (sym e)) in
    let len_same : inode_length k'.terminal.fs v.inode ≡ len =
      ap (λ (t : Terminal). inode_length t.fs v.inode) files
      ∙ inode_length-length k.terminal.fs x v.inode in
    let bytes_same : file_byte k'.terminal.fs v.inode ≡ file_byte k.terminal.fs v.inode =
      ap (λ (t : Terminal). file_byte t.fs v.inode) files
      ∙ file_byte-length k.terminal.fs x v.inode in
    record {
      number = v.number;
      is_number = v.is_number;
      not_stdout = v.not_stdout;
      inode = v.inode;
      reading = record {
        in_range = v.reading.in_range;
        in_use = rw (ap (λ d. d.flags) moved) v.reading.in_use;
        operations = ap (λ d. d.file_operation) moved ∙ v.reading.operations;
        file =
            rw (ap (λ d. d.file_name) moved, files)
              (IsFile-length k.terminal.fs x (fd_of k v.number).file_name v.inode v.reading.file);
      };
      no_wrap = rw len_same v.no_wrap;
      within = rw (ap (λ d. d.fileposition) moved, len_same) (omega (arith, v.within));
      rest =
          ap (drop 1024) v.rest
          ∙ drop-slice_of (file_byte k.terminal.fs v.inode) p (len - p) 1024
          ∙ same_slice (file_byte k.terminal.fs v.inode) (file_byte k'.terminal.fs v.inode) (p + m)
              (fd_of k' v.number).fileposition (len - p - m)
              (inode_length k'.terminal.fs v.inode - (fd_of k' v.number).fileposition) bytes_same
              (ap (λ d. d.fileposition) moved)
              (omega (arith, len_same, ap (λ d. d.fileposition) moved));
      stdout_used = rw stdout v.stdout_used;
      stdout_operations = rw stdout v.stdout_operations;
      nothing_typed = ap (λ (t : Terminal). t.keys.buffer_content_counter) files ∙ v.nothing_typed;
    }

module _ (l : Layout) (esp ebp : ℕ) (stack : Bytes) (prev : ℕ) (es : List Event) (k : Kernel)
    (fd : ℤ) (left : List ℕ) (v : IsPrinting k fd left) where
  -- The bytes that a read of 1024 gets.
  got_lem :
      let p = (fd_of k v.number).fileposition in
      let m = min 1024 (inode_length k.terminal.fs v.inode - p) in
      take 1024 left ≡ slice_of (file_byte k.terminal.fs v.inode) p m
  got_lem =
      let p : ℕ = (fd_of k v.number).fileposition in
      ap (take 1024) v.rest
      ∙ take-slice_of (file_byte k.terminal.fs v.inode) p (inode_length k.terminal.fs v.inode - p)
          1024

  kernel_read :
      (buf : Bytes)
      → let got = take 1024 left in
        (k' : Kernel) × (buf' : Bytes) × ((on_kernel l esp ebp stack prev es).read k fd buf 1024
          ≡ returns (k', pos (length got), buf'))
        × (slice_of buf' 0 (length got) ≡ got)
        × IsPrinting k' fd (drop 1024 left)
        × (k'.terminal.screen ≡ k.terminal.screen)
  unfolding on_kernel read_state after
  kernel_read buf =
      let p : ℕ = (fd_of k v.number).fileposition in
      let m : ℕ = min 1024 (inode_length k.terminal.fs v.inode - p) in
      let bytes : List ℕ = slice_of (file_byte k.terminal.fs v.inode) p m in
      let (fs', e, x, same) =
        read-after k v.number v.inode 1024 buf es v.reading (omega arith)
          (omega (arith, v.no_wrap, v.within)) in
      let count_lem : length (take 1024 left) ≡ m =
        ap length got_lem ∙ length-slice_of (file_byte k.terminal.fs v.inode) p m in
      (
        read_state k v.number x m,
        filled bytes buf,
        rw (v.is_number, e, ◌>>>◌)
            (ap₂
              (λ (s : FileSystem) (n : ℕ). returns (after k v.number s m, pos n, filled bytes buf))
              same (sym count_lem)),
        ap (slice_of (filled bytes buf) 0) count_lem
            ∙ filled-slice_of (file_byte k.terminal.fs v.inode) buf p m
            ∙ sym got_lem,
        IsPrinting-read k fd left v x,
        ap (λ (t : Terminal). t.screen) (read_state-terminal k v.number x m),
      )

  kernel_write :
      (buf : Bytes) (n : ℕ)
      → n ≤ 1024
      → (k' : Kernel) × (w : ℕ) × ((on_kernel l esp ebp stack prev es).write k (pos 1) buf (pos n)
          ≡ returns (k', pos w))
        × IsPrinting k' fd left
        × (k'.terminal.screen ≡ put_all k.terminal.screen (slice_of buf 0 n))
  unfolding on_kernel written
  kernel_write buf n fits = (
    written k buf n,
    n,
    write_lem k buf n prev v.stdout_used v.stdout_operations v.nothing_typed fits,
    IsPrinting-write k (written k buf n) fd left (written-fds k buf n) (written-fs k buf n)
        (write_and_print_lem k.terminal buf n).2 v,
    (write_and_print_alone k.terminal buf n v.nothing_typed).1,
  )

-- The kernel fills the interface that cat relies on.
kernel_reads :
    (l : Layout) (esp ebp : ℕ) (stack : Bytes) (prev : ℕ) (es : List Event)
    → Reads (on_kernel l esp ebp stack prev es)
kernel_reads l esp ebp stack prev es = record {
  IsOpen = IsPrinting;
  screen = λ k. k.terminal.screen;
  read_law = λ k fd buf left v. kernel_read l esp ebp stack prev es k fd left v buf;
  write_law = λ k fd buf n left v fits. kernel_write l esp ebp stack prev es k fd left v buf n fits;
}

-- cat's loop on the kernel prints exactly the rest of an open file, each byte once and in order,
-- and ends with status 0, if it gets a round for each byte and one more, descriptor 1 is the
-- terminal's, nothing is typed meanwhile or pending, and the positions do not wrap.
pub cat_loop-on_kernel :
    (l : Layout) (esp ebp : ℕ) (stack : Bytes) (prev : ℕ) (es : List Event) (k : Kernel) (fd : ℤ)
    (buf : Bytes) (left : List ℕ) (f : ℕ)
    → IsPrinting k fd left
    → length left < f
    → (k' : Kernel) × (cat_loop (on_kernel l esp ebp stack prev es) f k fd buf
        ≡ returns (k', pos 0))
      × (k'.terminal.screen ≡ put_all k.terminal.screen left)
unfolding kernel_reads
cat_loop-on_kernel l esp ebp stack prev es k fd buf left f v enough =
    cat_loop_lem (on_kernel l esp ebp stack prev es) (kernel_reads l esp ebp stack prev es) f k fd
      buf left enough v
