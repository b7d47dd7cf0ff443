-- ===== src/SystemCall/Descriptors.antt =====
-- open of student-distrib/systemcall.c: which descriptor a program gets.
pub use project_my_os.Base.{update-same, update-other}
use project_my_os.Base.{
  ltb_of_le, lt→ltb, ℕ, zero, suc, ◌+◌, ◌≤◌, ◌<◌, ◌≡◌, ◌≢◌, ◌⊎◌, inl, inr, refl, false, none, some,
  ◌==◌, pos, minus_one, is_zero, arith, Bytes, codes, Bool-cases, ==→eq, ==_false→ne, ne→==, ap,
  ◌∙◌,
}
use project_my_os.Str.{strncmp, IsString, bytes_of}
use project_my_os.Str.Laws.{strcpy_lem, strlen_lem}
use project_my_os.FileSystem.{Dentry, blank_dentry, read_dentry_by_name, success}
use project_my_os.SystemCall.{
  rtc_t, directory_t, file_t, FileDescriptor, Pcb, Kernel, current, set_pcb, returns, or_endless,
  ◌>>>◌, pcb_addr,
}
use project_my_os.SystemCall.Files.{
  vacant_loop, ops_for, set_fd, open_at, open_fd, copy_name, overlaid,
}

abbrev pub fd_of : Kernel → ℕ → FileDescriptor
fd_of k fd = (current k).file_array fd

-- Descriptor `fd` is the lowest free one from `i` on.
pub record IsLowest (fds : ℕ → FileDescriptor) (i fd : ℕ) : Type 0 where
  pub above : i ≤ fd
  pub free : (fds fd).flags ≡ 0
  pub lowest : (j : ℕ) → i ≤ j → j < fd → (fds j).flags ≢ 0

-- No descriptor is free from `i` on, `r` numbers long.
abbrev pub AllUsed : (ℕ → FileDescriptor) → ℕ → ℕ → Type 0
AllUsed fds i r = (j : ℕ) → i ≤ j → j < i + r → (fds j).flags ≢ 0

vacant_loop-taken :
    (r : ℕ) (fds : ℕ → FileDescriptor) (i : ℕ)
    → (fds i).flags ≢ 0
    → vacant_loop (suc r) fds i ≡ vacant_loop r fds (i + 1)
unfolding vacant_loop
vacant_loop-taken r fds i h = rw (ne→== (fds i).flags 0 h, vacant_loop)

vacant_loop-free :
    (r : ℕ) (fds : ℕ → FileDescriptor) (i : ℕ)
    → (fds i).flags ≡ 0
    → vacant_loop (suc r) fds i ≡ some i
unfolding vacant_loop
vacant_loop-free r fds i h = rw (h, vacant_loop)

used-from :
    (fds : ℕ → FileDescriptor) (i j : ℕ)
    → (fds i).flags ≢ 0
    → (i + 1 ≤ j → (fds j).flags ≢ 0)
    → i ≤ j
    → (fds j).flags ≢ 0
used-from fds i j h rest l = elim (Bool-cases (j == i)) [
  | inl same ↦ rw (==→eq j i same) h
  | inr other ↦ rest (ground arith)
]

vacant_loop_lem :
    (r : ℕ) (fds : ℕ → FileDescriptor) (i : ℕ)
    → (vacant_loop r fds i ≡ none) × AllUsed fds i r
      ⊎ (fd : ℕ) × (vacant_loop r fds i ≡ some fd) × (fd < i + r) × IsLowest fds i fd
unfolding vacant_loop
vacant_loop_lem zero fds i = inl (refl, λ j a b. absurd (omega arith))
vacant_loop_lem (suc r) fds i = elim (Bool-cases ((fds i).flags == 0)) [
  | inl free ↦
      let z = ==→eq (fds i).flags 0 free in
      inr (
        i,
        vacant_loop-free r fds i z,
        omega arith,
        record { above = omega arith; free = z; lowest = λ j a b. absurd (omega arith) },
      )
  | inr taken ↦
      let n = ==_false→ne (fds i).flags 0 taken in
      elim (vacant_loop_lem r fds (i + 1)) [
        | inl (e, used) ↦ inl (
          vacant_loop-taken r fds i n ∙ e,
          λ j a b. used-from fds i j n (λ l. used j l (omega arith)) a,
        )
        | inr (fd, e, l, low) ↦ inr (
          fd,
          vacant_loop-taken r fds i n ∙ e,
          omega arith,
          record {
            above = omega (arith, low.above);
            free = low.free;
            lowest = λ j a b. used-from fds i j n (λ m. low.lowest j m b) a;
          },
        )
      ]
]

-- What an opened descriptor holds. Types are 0 for the clock, 1 for a directory and 2 for a file; for
-- another type the table is the one it had.
pub record IsOpened (before after : FileDescriptor) (d : Dentry) : Type 0 where
  pub in_use : after.flags ≡ 1
  pub at_start : after.fileposition ≡ 0
  pub clock : d.filetype ≡ 0 → after.file_operation ≡ some rtc_t
  pub directory : d.filetype ≡ 1 → after.file_operation ≡ some directory_t
  pub file : d.filetype ≡ 2 → after.file_operation ≡ some file_t
  pub other : 2 < d.filetype → after.file_operation ≡ before.file_operation
  pub node : after.inode ≡ d.inode

pub current-set_pcb : (k : Kernel) (p : Pcb) → current (set_pcb k p) ≡ p
unfolding set_pcb
current-set_pcb k p = update-same k.pcbs (pcb_addr k.counter) p

pub set_fd-own :
    (k : Kernel) (fd : ℕ) (d : FileDescriptor) → fd_of (set_pcb k (set_fd (current k) fd d)) fd ≡ d
unfolding set_fd
set_fd-own k fd d =
    ap (λ p. p.file_array fd) (current-set_pcb k (set_fd (current k) fd d))
    ∙ update-same (current k).file_array fd d

pub set_fd-other :
    (k : Kernel) (fd j : ℕ) (d : FileDescriptor)
    → j ≢ fd
    → fd_of (set_pcb k (set_fd (current k) fd d)) j ≡ fd_of k j
unfolding set_fd
set_fd-other k fd j d h =
    ap (λ p. p.file_array j) (current-set_pcb k (set_fd (current k) fd d))
    ∙ update-other (current k).file_array fd d j h

-- What `open` puts into a descriptor.
opened : FileDescriptor → Dentry → Bytes → FileDescriptor
opened before d name = record {
  file_operation = ops_for d.filetype before.file_operation;
  file_name = name;
  inode = d.inode;
  fileposition = 0;
  flags = 1;
}

copy_name_lem :
    (before : FileDescriptor) (filename : Bytes) (n : ℕ)
    → IsString filename n
    → n < 32
    → (name : Bytes) × (copy_name before filename ≡ returns (record before { file_name = name }))
unfolding copy_name overlaid
copy_name_lem before filename n v h =
    let (out, e, inside, after) = strcpy_lem before.file_name filename n v in
    (
      out,
      rw (
        strlen_lem filename n v,
        e,
        or_endless,
        ◌>>>◌,
        ltb_of_le 43 n (omega arith),
        lt→ltb n 32 h,
        lt→ltb n 36 (omega arith),
        lt→ltb n 40 (omega arith),
      ),
    )

open_at-opened :
    (k : Kernel) (filename : Bytes) (d : Dentry) (fd n : ℕ)
    → IsString filename n
    → n < 32
    → (name : Bytes) × (open_at k filename d fd
        ≡ returns (set_pcb k (set_fd (current k) fd (opened (fd_of k fd) d name)), pos fd))
unfolding open_at opened
open_at-opened k filename d fd n v h =
    let filled : FileDescriptor = record (fd_of k fd) {
      file_operation = ops_for d.filetype (fd_of k fd).file_operation;
      inode = d.inode;
      fileposition = 0;
      flags = 1;
    } in
    let (name, e) = copy_name_lem filled filename n v h in (name, rw (e, ◌>>>◌))

IsOpened-opened :
    (before : FileDescriptor) (d : Dentry) (name : Bytes) → IsOpened before (opened before d name) d
unfolding opened ops_for
IsOpened-opened before d name = record {
  in_use = refl;
  at_start = refl;
  clock = λ e. rw e refl;
  directory = λ e. rw e refl;
  file = λ e. rw e refl;
  other = λ e. ground arith;
  node = refl;
}

-- The name is neither of the two that `open` treats apart.
pub record IsPlain (filename : Bytes) : Type 0 where
  pub not_stdin : is_zero (strncmp (bytes_of (codes "stdin")) filename 5) ≡ false
  pub not_stdout : is_zero (strncmp (bytes_of (codes "stdout")) filename 5) ≡ false

open_fd-search :
    (k : Kernel) (filename : Bytes) (d : Dentry)
    → IsPlain filename
    → read_dentry_by_name k.terminal.fs filename blank_dentry ≡ some (success, d)
    → open_fd k filename ≡ (elim (vacant_loop 6 (current k).file_array 2) [
      | none ↦ returns (k, minus_one)
      | some fd ↦ open_at k filename d fd
    ])
unfolding open_fd
open_fd-search k filename d p found = rw (p.not_stdin, p.not_stdout, found, or_endless, ◌>>>◌)

-- Opening a name of less than 32 characters that the directory has, and that `open` does not take
-- for stdin or stdout, gets the lowest free descriptor from 2 to 7: it is in use, at the start of
-- the file, has the directory entry's inode number, and has the operations of the clock for type 0,
-- of a directory for type 1 and of a file for type 2; every other descriptor is left as it was.
-- With none free the call fails and changes nothing.
pub open_fd_lem :
    (k : Kernel) (filename : Bytes) (d : Dentry) (n : ℕ)
    → IsString filename n
    → n < 32
    → IsPlain filename
    → read_dentry_by_name k.terminal.fs filename blank_dentry ≡ some (success, d)
    → (open_fd k filename ≡ returns (k, minus_one)) × AllUsed (fd_of k) 2 6
      ⊎ (k' : Kernel) × (fd : ℕ) × (open_fd k filename ≡ returns (k', pos fd))
        × (fd < 8)
        × IsLowest (fd_of k) 2 fd
        × IsOpened (fd_of k fd) (fd_of k' fd) d
        × ((j : ℕ) → j ≢ fd → fd_of k' j ≡ fd_of k j)
open_fd_lem k filename d n v h32 p found = elim (vacant_loop_lem 6 (fd_of k) 2) [
  | inl (e, used) ↦ inl (open_fd-search k filename d p found ∙ rw e, used)
  | inr (fd, e, l, low) ↦
      let (name, o) = open_at-opened k filename d fd n v h32 in
      let new = opened (fd_of k fd) d name in
      inr (
        set_pcb k (set_fd (current k) fd new),
        fd,
        open_fd-search k filename d p found ∙ rw e o,
        l,
        low,
        rw (set_fd-own k fd new) (IsOpened-opened (fd_of k fd) d name),
        λ j h. set_fd-other k fd j new h,
      )
]
