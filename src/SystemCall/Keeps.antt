-- ===== src/SystemCall/Keeps.antt =====
-- The calls of student-distrib/systemcall.c that start and end no process leave the count of
-- processes and the process numbers alone.
use project_my_os.Base.{
  ℕ, ◌≡◌, refl, ◌∙◌, ap, Option, none, some, Bytes, false, ◌||◌, ltb, ◌==◌, update, update-same,
  update-other, Bool-cases, inl, inr, ℤ, pos, negsuc, minus_one, is_minus_one, is_zero, codes, List,
  [], arith,
}
use project_my_os.Str.{strcpy, strncmp, bytes_of}
use project_my_os.Rtc.{Event, rtc_read}
use project_my_os.Keyboard.{terminal_read, terminal_write}
use project_my_os.FileSystem.{
  FileSystem, Dentry, blank_dentry, file_read, directory_read, read_dentry_by_name,
}
use project_my_os.SystemCall.{
  FileOps, stdin_t, stdout_t, rtc_t, file_t, directory_t, FileDescriptor, Pcb, Kernel, current,
  set_pcb, pcb_addr, returns, or_endless, or_waits, or_overruns,
}
use project_my_os.SystemCall.Files.{
  to_u32, bad_fd, fd_index, set_fs, read_op, advance, read, write_op, write, vacant_loop, set_fd,
  copy_name, open_at, open_fd, close_op, close,
}
use project_my_os.SystemCall.Ensures.{Ensures, Ensures-if, Ensures-bind, Ensures-after}

-- The same count, and the same number in every control block.
pub record Keeps (k k' : Kernel) : Type 0 where
  pub counter : k'.counter ≡ k.counter
  pub numbers : (a : ℕ) → (k'.pcbs a).pid ≡ (k.pcbs a).pid

pub Keeps-refl : (k : Kernel) → Keeps k k
Keeps-refl k = record { counter = refl; numbers = λ a. refl }

pub Keeps-trans : (j k l : Kernel) → Keeps j k → Keeps k l → Keeps j l
Keeps-trans j k l f g = record {
  counter = g.counter ∙ f.counter;
  numbers = λ a. g.numbers a ∙ f.numbers a;
}

-- The running process keeps its number.
pub Keeps-current : (k k' : Kernel) → Keeps k k' → (current k').pid ≡ (current k).pid
Keeps-current k k' f = rw f.counter (f.numbers (pcb_addr k.counter))

number_at :
    (k : Kernel) (p : Pcb)
    → p.pid ≡ (current k).pid
    → (a : ℕ) → (update k.pcbs (pcb_addr k.counter) p a).pid ≡ (k.pcbs a).pid
number_at k p e a = elim (Bool-cases (a == pcb_addr k.counter)) [
  | inl same ↦
      let at : a ≡ pcb_addr k.counter = ground (arith, same) in
      rw (at, update-same k.pcbs (pcb_addr k.counter) p) e
  | inr other ↦
      ap (λ (q : Pcb). q.pid) (update-other k.pcbs (pcb_addr k.counter) p a (ground (arith, other)))
]

Keeps-set_pcb : (k : Kernel) (p : Pcb) → p.pid ≡ (current k).pid → Keeps k (set_pcb k p)
unfolding set_pcb
Keeps-set_pcb k p e = record { counter = refl; numbers = λ a. number_at k p e a }

Keeps-set_fs : (k : Kernel) (fs : FileSystem) → Keeps k (set_fs k fs)
unfolding set_fs
Keeps-set_fs k fs = record { counter = refl; numbers = λ a. refl }

read_op-Keeps :
    (k : Kernel) (ops : Option FileOps) (buf : Bytes) (offset : ℕ) (nbytes : ℤ) (name : Bytes)
    (es : List Event)
    → Ensures (λ r. Keeps k r.0) (read_op k ops buf offset nbytes name es)
unfolding read_op
read_op-Keeps k none buf offset nbytes name es = tt
read_op-Keeps k (some stdin_t) buf offset nbytes name es =
    Ensures-after _ (or_waits (terminal_read k.terminal.keys nbytes)) _
      (λ r. record { counter = refl; numbers = λ a. refl })
read_op-Keeps k (some stdout_t) buf offset nbytes name es = tt
read_op-Keeps k (some rtc_t) buf offset nbytes name es =
    Ensures-after _ (or_waits (rtc_read k.rtc es)) _
      (λ r. record { counter = refl; numbers = λ a. refl })
read_op-Keeps k (some file_t) buf offset nbytes name es =
    Ensures-after _ (or_endless (file_read k.terminal.fs false offset (to_u32 nbytes) (some name)))
      _ (λ r. Keeps-set_fs k r.0)
read_op-Keeps k (some directory_t) buf offset nbytes name es =
    Ensures-after _ (or_endless (directory_read k.terminal.fs buf)) _ (λ r. Keeps-set_fs k r.0)

advance-pid : (p : Pcb) (fd : ℕ) (bytes : ℤ) → (advance p fd bytes).pid ≡ p.pid
unfolding advance
advance-pid p fd bytes = refl

pub read-Keeps :
    (k : Kernel) (fd : ℤ) (buf : Option Bytes) (nbytes : ℤ) (es : List Event)
    → Ensures (λ r. Keeps k r.0) (read k fd buf nbytes es)
unfolding read
read-Keeps k fd none nbytes es = Keeps-refl k
read-Keeps k fd (some buf) nbytes es =
    let d = (current k).file_array (fd_index fd) in
    let op = read_op k d.file_operation buf d.fileposition nbytes d.file_name es in
    Ensures-if _ (bad_fd fd) _ _ (Keeps-refl k) (
      Ensures-if _ (d.flags == 0) _ _ (Keeps-refl k) (
        Ensures-bind (λ r. Keeps k r.0) _ op _
          (read_op-Keeps k d.file_operation buf d.fileposition nbytes d.file_name es)
          (λ r f. Keeps-trans k r.0 _ f (
            Keeps-set_pcb r.0 (advance (current r.0) (fd_index fd) r.1)
              (advance-pid (current r.0) (fd_index fd) r.1)))))

write_op-Keeps :
    (k : Kernel) (ops : Option FileOps) (buf : Bytes) (nbytes : ℤ) (prev : ℕ)
    → Ensures (λ r. Keeps k r.0) (write_op k ops buf nbytes prev)
unfolding write_op
write_op-Keeps k none buf nbytes prev = tt
write_op-Keeps k (some stdin_t) buf nbytes prev = tt
write_op-Keeps k (some stdout_t) buf nbytes prev =
    Ensures-after _ (or_overruns (terminal_write k.terminal buf nbytes)) _
      (λ r. record { counter = refl; numbers = λ a. refl })
write_op-Keeps k (some rtc_t) buf nbytes prev = record { counter = refl; numbers = λ a. refl }
write_op-Keeps k (some file_t) buf nbytes prev = Keeps-refl k
write_op-Keeps k (some directory_t) buf nbytes prev = Keeps-refl k

pub write-Keeps :
    (k : Kernel) (fd : ℤ) (buf : Option Bytes) (nbytes : ℤ) (prev : ℕ)
    → Ensures (λ r. Keeps k r.0) (write k fd buf nbytes prev)
unfolding write
write-Keeps k fd none nbytes prev = Keeps-refl k
write-Keeps k fd (some buf) nbytes prev =
    let d = (current k).file_array (fd_index fd) in
    Ensures-if _ (bad_fd fd) _ _ (Keeps-refl k) (
      Ensures-if _ (d.flags == 0) _ _ (Keeps-refl k)
        (write_op-Keeps k d.file_operation buf nbytes prev))

Keeps-set_fd :
    (k : Kernel) (fd : ℕ) (d : FileDescriptor) → Keeps k (set_pcb k (set_fd (current k) fd d))
unfolding set_fd
Keeps-set_fd k fd d = Keeps-set_pcb k _ refl

open_at-Keeps :
    (k : Kernel) (filename : Bytes) (temp : Dentry) (fd : ℕ)
    → Ensures (λ r. Keeps k r.0) (open_at k filename temp fd)
unfolding open_at
open_at-Keeps k filename temp fd =
    Ensures-after _ (copy_name _ filename) _ (λ d. Keeps-set_fd k fd d)

vacant-Keeps :
    (k : Kernel) (filename : Bytes) (temp : Dentry) (vacant : Option ℕ)
    → Ensures {A = Kernel × ℤ}
        (λ r. Keeps k r.0)
        (elim vacant [ none ↦ returns (k, minus_one) | some fd ↦ open_at k filename temp fd ])
vacant-Keeps k filename temp none = Keeps-refl k
vacant-Keeps k filename temp (some fd) = open_at-Keeps k filename temp fd

pub open_fd-Keeps :
    (k : Kernel) (filename : Bytes) → Ensures (λ r. Keeps k r.0) (open_fd k filename)
unfolding open_fd
open_fd-Keeps k filename =
    Ensures-if _ (is_zero (strncmp (bytes_of (codes "stdin")) filename 5)) _ _ (Keeps-set_fd k 0 _)
      (Ensures-if _ (is_zero (strncmp (bytes_of (codes "stdout")) filename 5)) _ _
        (Keeps-set_fd k 1 _)
        (Ensures-after _ (or_endless (read_dentry_by_name k.terminal.fs filename blank_dentry)) _
          (λ found.
            Ensures-if _ (is_minus_one found.0) _ _ (Keeps-refl k)
              (vacant-Keeps k filename found.1 (vacant_loop 6 (current k).file_array 2)))))

pub close-Keeps : (k : Kernel) (fd : ℤ) → Ensures (λ r. Keeps k r.0) (close k fd)
unfolding close
close-Keeps k (negsuc n) = Keeps-refl k
close-Keeps k (pos fd) =
    let d = (current k).file_array fd in
    Ensures-if _ (ltb fd 2 || ltb 7 fd) _ _ (Keeps-refl k) (
      Ensures-if _ (d.flags == 1) _ _
        (Ensures-after _ (close_op k d.file_operation) _ (λ ret.
          Ensures-after _ (or_endless (strcpy d.file_name (bytes_of []))) _
            (λ name. Keeps-set_fd k fd _)))
        (Keeps-refl k))
