-- ===== src/SystemCall/Position.antt =====
-- read of student-distrib/systemcall.c on a file: its position, and reads in a row.
use project_my_os.Base.{
  ℕ, zero, suc, ◌+◌, ◌-◌, ◌/◌, ◌%◌, ◌^◌, ◌≤◌, ◌<◌, ◌≡◌, ◌≢◌, inl, inr, refl, true, false, some,
  List, leb, ◌||◌, ◌==◌, if◌then◌else◌, ◌>>=◌, ℤ, pos, is_zero, arith, Bytes, Bool-cases, ne→==,
  ltb_of_le, ap, ap₂, ◌∙◌, min, slice_of, leb→le,
}
use project_my_os.Str.{strlen, strncmp}
use project_my_os.FileSystem.{
  FileSystem, Dentry, blank_dentry, dentry_name, dentry_filetype, dentry_inode, dentry_copy,
  name_size, name_loop, read_dentry_by_name, success, fail, inode_length, data_block, read_data,
  after_read, file_read,
}
use project_my_os.FileSystem.Read.{file_byte, read_data_lem, read_data_refuses}
use project_my_os.SystemCall.{file_t, Kernel, current, set_pcb, returns, or_endless, ◌>>>◌}
use project_my_os.Rtc.{Event}
use project_my_os.SystemCall.Files.{to_u32, set_fs, read_op, advance, read}
use project_my_os.SystemCall.Descriptors.{fd_of, current-set_pcb, update-same}

-- A name that the directory has, of a file whose blocks up to its length have good numbers.
pub record IsFile (fs : FileSystem) (name : Bytes) (inode : ℕ) : Type 0 where
  pub entry : Dentry
  pub found : read_dentry_by_name fs name blank_dentry ≡ some (success, entry)
  pub node : entry.inode ≡ inode
  pub inode_good : inode < fs.my_boot_block.inodes_num
  pub blocks_good :
      (k : ℕ)
      → k ≤ inode_length fs inode
      → data_block fs inode (k / 4096) < fs.my_boot_block.datablocks_num

abbrev pub bytes_left : FileSystem → ℕ → ℕ → ℕ → ℕ
bytes_left fs inode p n = min n (inode_length fs inode - p)

pub read_data_any :
    (fs : FileSystem) (name : Bytes) (inode p n : ℕ)
    → IsFile fs name inode
    → p + n < 2 ^ 32
    → ((read_data fs inode p n).ret ≡ pos (bytes_left fs inode p n))
      × ((read_data fs inode p n).written
          ≡ slice_of (file_byte fs inode) p (bytes_left fs inode p n))
unfolding slice_of
read_data_any fs name inode p n f w = elim (Bool-cases (leb (inode_length fs inode) p)) [
  | inl past ↦
      let e : bytes_left fs inode p n ≡ 0 = ground (arith, leb→le _ _ past) in
      let r = read_data_refuses fs inode p n (inl (leb→le _ _ past)) in
      rw e (r.0 ∙ rw past refl, r.1)
  | inr inside ↦
      let lt : p < inode_length fs inode = ground arith in
      let r =
        read_data_lem fs inode p n f.inode_good lt w (f.blocks_good p (omega arith))
          (λ k a b c. f.blocks_good k c) in
      (r.0, r.1)
]

pub file_read_lem :
    (fs : FileSystem) (name : Bytes) (inode p n : ℕ)
    → IsFile fs name inode
    → 0 < n
    → p + n < 2 ^ 32
    → (fs' : FileSystem) × (file_read fs false p n (some name)
        ≡ some (
          fs',
          pos (bytes_left fs inode p n),
          slice_of (file_byte fs inode) p (bytes_left fs inode p n),
        ))
      × (x : ℤ) × (fs' ≡ record fs { length_of_file = x })
unfolding file_read after_read
file_read_lem fs name inode p n f z w =
    let r = read_data_any fs name inode p n f w in
    let fs' : FileSystem = record fs { length_of_file = (read_data fs inode p n).length_of_file } in
    (
      fs',
      rw (ne→== n 0 (omega arith), f.found, ◌>>=◌, f.node) (ap₂ (λ a b. some (fs', a, b)) r.0 r.1),
      (read_data fs inode p n).length_of_file,
      refl,
    )

-- A descriptor that is open on a file.
pub record IsReading (k : Kernel) (fd inode : ℕ) : Type 0 where
  pub in_range : fd < 8
  pub in_use : (fd_of k fd).flags ≢ 0
  pub operations : (fd_of k fd).file_operation ≡ some file_t
  pub file : IsFile k.terminal.fs (fd_of k fd).file_name inode

-- The number of bytes that a read of `n` gets.
abbrev pub count : Kernel → ℕ → ℕ → ℕ → ℕ
count k fd inode n = bytes_left k.terminal.fs inode (fd_of k fd).fileposition n

to_u32-pos : (n : ℕ) → n < 2 ^ 32 → to_u32 (pos n) ≡ n
unfolding to_u32
to_u32-pos n h = omega arith

read_op_lem :
    (k : Kernel) (fd inode n : ℕ) (buf : Bytes) (es : List Event)
    → IsReading k fd inode
    → 0 < n
    → (fd_of k fd).fileposition + n < 2 ^ 32
    → (fs' : FileSystem) × (read_op k
          (fd_of k fd).file_operation
          buf
          (fd_of k fd).fileposition
          (pos n)
          (fd_of k fd).file_name
          es
        ≡ returns (
          set_fs k fs',
          pos (count k fd inode n),
          slice_of (file_byte k.terminal.fs inode) (fd_of k fd).fileposition (count k fd inode n),
        ))
      × (x : ℤ) × (fs' ≡ record k.terminal.fs { length_of_file = x })
unfolding read_op
read_op_lem k fd inode n buf es r z w =
    let (fs', e, x, same) =
      file_read_lem k.terminal.fs (fd_of k fd).file_name inode (fd_of k fd).fileposition n r.file z
        w in
    (fs', rw (r.operations, to_u32-pos n (omega arith), e, or_endless, ◌>>>◌), x, same)

-- The state after a read that has left the file system `fs'` and got `m` bytes.
unfoldable pub after : Kernel → ℕ → FileSystem → ℕ → Kernel
unfolding set_fs advance set_pcb
after k fd fs' m = set_pcb (set_fs k fs') (advance (current k) fd (pos m))

pub read-after :
    (k : Kernel) (fd inode n : ℕ) (buf : Bytes) (es : List Event)
    → IsReading k fd inode
    → 0 < n
    → (fd_of k fd).fileposition + n < 2 ^ 32
    → (fs' : FileSystem) × (read k (pos fd) (some buf) (pos n) es
        ≡ returns (
          after k fd fs' (count k fd inode n),
          pos (count k fd inode n),
          slice_of (file_byte k.terminal.fs inode) (fd_of k fd).fileposition (count k fd inode n),
        ))
      × (x : ℤ) × (fs' ≡ record k.terminal.fs { length_of_file = x })
unfolding read after set_fs
read-after k fd inode n buf es r z w =
    let (fs', e, x, same) = read_op_lem k fd inode n buf es r z w in
    (
      fs',
      rw (
        ltb_of_le 7 fd (omega (arith, r.in_range)),
        ne→== (fd_of k fd).flags 0 r.in_use,
        e,
        ◌>>>◌,
      ),
      x,
      same,
    )

pub after-fd :
    (k : Kernel) (fd m : ℕ) (fs' : FileSystem)
    → (fd_of k fd).fileposition + m < 2 ^ 32
    → fd_of (after k fd fs' m) fd
      ≡ record (fd_of k fd) { fileposition = (fd_of k fd).fileposition + m }
unfolding after set_fs advance to_u32
after-fd k fd m fs' h =
    let e : ((fd_of k fd).fileposition + m % 2 ^ 32) % 2 ^ 32 ≡ (fd_of k fd).fileposition + m =
      omega arith in
    ap (λ p. p.file_array fd) (current-set_pcb (set_fs k fs') (advance (current k) fd (pos m)))
    ∙ update-same (current k).file_array fd _
    ∙ ap (λ p. record (fd_of k fd) { fileposition = p }) e

-- The search does not look at the length of the last file read.
name_loop-length :
    (fs : FileSystem) (x : ℤ) (fname : Bytes) (d : Dentry) (r i : ℕ)
    → name_loop (record fs { length_of_file = x }) fname d r i ≡ name_loop fs fname d r i
unfolding name_loop dentry_name dentry_copy dentry_filetype dentry_inode
name_loop-length fs x fname d zero i = refl
name_loop-length fs x fname d (suc r) i =
    ap
      (λ rest. strlen fname >>= λ sizefile. strlen (dentry_name fs i) >>= λ sizedentry.
        elim (is_zero (strncmp (dentry_name fs i) fname (name_size sizefile sizedentry))) [
          | true ↦ dentry_copy fs i d >>= λ e. some (success, e)
          | false ↦ rest
        ])
      (name_loop-length fs x fname d r (i + 1))

read_dentry_by_name-length :
    (fs : FileSystem) (x : ℤ) (fname : Bytes) (d : Dentry)
    → read_dentry_by_name (record fs { length_of_file = x }) fname d
      ≡ read_dentry_by_name fs fname d
unfolding read_dentry_by_name
read_dentry_by_name-length fs x fname d =
    ap (λ rest. strlen fname >>= λ n. if n == 0 || leb (2 ^ 31) n then some (fail, d) else rest)
      (name_loop-length fs x fname d 63 0)

pub IsFile-length :
    (fs : FileSystem) (x : ℤ) (name : Bytes) (inode : ℕ)
    → IsFile fs name inode
    → IsFile (record fs { length_of_file = x }) name inode
unfolding inode_length data_block
IsFile-length fs x name inode f = record {
  entry = f.entry;
  found = read_dentry_by_name-length fs x name blank_dentry ∙ f.found;
  node = f.node;
  inode_good = f.inode_good;
  blocks_good = f.blocks_good;
}

-- A read of at least one byte of an open file with good blocks, with no wrap of the position, gets
-- the bytes of the file from the descriptor's position on, as many as asked for and the file has,
-- and moves the position by that number; the descriptor stays open on the file.
pub read_lem :
    (k : Kernel) (fd inode n : ℕ) (buf : Bytes) (es : List Event)
    → IsReading k fd inode
    → 0 < n
    → (fd_of k fd).fileposition + n < 2 ^ 32
    → let p = (fd_of k fd).fileposition in
      let m = min n (inode_length k.terminal.fs inode - p) in
      (k' : Kernel) × (read k (pos fd) (some buf) (pos n) es
        ≡ returns (k', pos m, slice_of (file_byte k.terminal.fs inode) p m))
      × ((fd_of k' fd).fileposition ≡ p + m)
      × IsReading k' fd inode
      × (x : ℤ) × (k'.terminal.fs ≡ record k.terminal.fs { length_of_file = x })
unfolding after set_pcb set_fs
read_lem k fd inode n buf es r z w =
    let m : ℕ = count k fd inode n in
    let (fs', e, x, same) = read-after k fd inode n buf es r z w in
    let moved = after-fd k fd m fs' (omega arith) in
    (
      after k fd fs' m,
      e,
      ap (λ d. d.fileposition) moved,
      record {
        in_range = r.in_range;
        in_use = rw (ap (λ d. d.flags) moved) r.in_use;
        operations = ap (λ d. d.file_operation) moved ∙ r.operations;
        file =
            rw (same, ap (λ d. d.file_name) moved)
              (IsFile-length k.terminal.fs x (fd_of k fd).file_name inode r.file);
      },
      x,
      same,
    )
