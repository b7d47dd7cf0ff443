-- ===== src/SystemCall/Failure.antt =====
-- A read through student-distrib/systemcall.c that fails.
use project_my_os.Base.{
  ℕ, ◌+◌, ◌/◌, ◌%◌, ◌^◌, ◌≤◌, ◌<◌, ◌≡◌, ◌≢◌, ◌⊎◌, inr, refl, false, some, List, [], ◌>>=◌, pos,
  minus_one, arith, Bytes, ne→==, ltb_of_le, leb_of_lt, ap, ap₂, ◌∙◌,
}
use project_my_os.FileSystem.{
  FileSystem, Dentry, blank_dentry, read_dentry_by_name, success, inode_length, data_block,
  read_data, after_read, file_read,
}
use project_my_os.FileSystem.Read.{read_data_refuses}
use project_my_os.Rtc.{Event}
use project_my_os.SystemCall.{file_t, Kernel, current, set_pcb, returns, or_endless, ◌>>>◌}
use project_my_os.SystemCall.Files.{to_u32, set_fs, read_op, advance, read}
use project_my_os.SystemCall.Descriptors.{fd_of, current-set_pcb, update-same}

-- A descriptor open on a file, at a position inside it, at which it cannot be read.
pub record IsBroken (k : Kernel) (fd inode : ℕ) : Type 0 where
  pub in_range : fd < 8
  pub in_use : (fd_of k fd).flags ≢ 0
  pub operations : (fd_of k fd).file_operation ≡ some file_t
  pub entry : Dentry
  pub found :
      read_dentry_by_name k.terminal.fs (fd_of k fd).file_name blank_dentry ≡ some (success, entry)
  pub node : entry.inode ≡ inode
  pub inside : (fd_of k fd).fileposition < inode_length k.terminal.fs inode
  pub bad :
      (k.terminal.fs.my_boot_block.inodes_num ≤ inode)
      ⊎ (k.terminal.fs.my_boot_block.datablocks_num
          ≤ data_block k.terminal.fs inode ((fd_of k fd).fileposition / 4096))

file_read-fails :
    (k : Kernel) (fd inode n : ℕ)
    → IsBroken k fd inode
    → 0 < n
    → (fs' : FileSystem) × (file_read k.terminal.fs false
          (fd_of k fd).fileposition
          n
          (some (fd_of k fd).file_name)
        ≡ some (fs', minus_one, []))
unfolding file_read after_read
file_read-fails k fd inode n b z =
    let p : ℕ = (fd_of k fd).fileposition in
    let fs : FileSystem = k.terminal.fs in
    let r = read_data_refuses fs inode p n (inr b.bad) in
    let fs' : FileSystem = record fs { length_of_file = (read_data fs inode p n).length_of_file } in
    (
      fs',
      rw (ne→== n 0 (omega arith), b.found, ◌>>=◌, b.node)
          (ap₂ (λ c s. some (fs', c, s)) (r.0 ∙ rw (leb_of_lt _ _ b.inside) refl) r.1),
    )

read_op-fails :
    (k : Kernel) (fd inode n : ℕ) (buf : Bytes) (es : List Event)
    → IsBroken k fd inode
    → 0 < n
    → n < 2 ^ 32
    → (fs' : FileSystem) × (read_op k
          (fd_of k fd).file_operation
          buf
          (fd_of k fd).fileposition
          (pos n)
          (fd_of k fd).file_name
          es
        ≡ returns (set_fs k fs', minus_one, []))
unfolding read_op to_u32
read_op-fails k fd inode n buf es b z w =
    let (fs', e) = file_read-fails k fd inode n b z in
    let wrap : n % 2 ^ 32 ≡ n = omega arith in (fs', rw (b.operations, wrap, e, or_endless, ◌>>>◌))

-- The state after a result of -1.
moved_back : Kernel → ℕ → FileSystem → Kernel
moved_back k fd fs' = set_pcb (set_fs k fs') (advance (current k) fd minus_one)

moved_back-position :
    (k : Kernel) (fd : ℕ) (fs' : FileSystem)
    → (fd_of (moved_back k fd fs') fd).fileposition
      ≡ ((fd_of k fd).fileposition + 4294967295) % 4294967296
unfolding moved_back advance set_fs to_u32
moved_back-position k fd fs' =
    ap (λ p. (p.file_array fd).fileposition)
      (current-set_pcb (set_fs k fs') (advance (current k) fd minus_one))
    ∙ ap (λ d. d.fileposition) (update-same (current k).file_array fd _)

-- A read of at least one byte of a file, at a position inside it, whose inode number is bad or whose
-- block number at that position is bad returns -1 and stores nothing, but takes the position one byte
-- back, from 0 to 2 ^ 32 - 1.
pub read_fails :
    (k : Kernel) (fd inode n : ℕ) (buf : Bytes) (es : List Event)
    → IsBroken k fd inode
    → 0 < n
    → n < 2 ^ 32
    → (k' : Kernel) × (read k (pos fd) (some buf) (pos n) es ≡ returns (k', minus_one, []))
      × ((fd_of k' fd).fileposition ≡ ((fd_of k fd).fileposition + 4294967295) % 4294967296)
unfolding read moved_back set_fs
read_fails k fd inode n buf es b z w =
    let (fs', e) = read_op-fails k fd inode n buf es b z w in
    (
      moved_back k fd fs',
      rw (
        ltb_of_le 7 fd (omega (arith, b.in_range)),
        ne→== (fd_of k fd).flags 0 b.in_use,
        e,
        ◌>>>◌,
      ),
      moved_back-position k fd fs',
    )
