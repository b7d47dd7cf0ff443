-- ===== src/SystemCall/Sequence.antt =====
-- Reads in a row through student-distrib/systemcall.c.
use project_my_os.Base.{
  ℕ, ◌+◌, ◌-◌, ◌^◌, ◌<◌, ◌≡◌, refl, some, List, ◌++◌, ℤ, pos, arith, Bytes, ap, ap₂, ◌∙◌, sym, min,
  slice_of, append-slice_of,
}
use project_my_os.FileSystem.{FileSystem, inode_length, data_block, block_addr}
use project_my_os.FileSystem.Read.{file_byte}
use project_my_os.SystemCall.{Kernel, returns}
use project_my_os.Rtc.{Event}
use project_my_os.SystemCall.Files.{read}
use project_my_os.SystemCall.Descriptors.{fd_of}
use project_my_os.SystemCall.Position.{IsReading, read_lem}

pub file_byte-length :
    (fs : FileSystem) (x : ℤ) (inode : ℕ)
    → file_byte (record fs { length_of_file = x }) inode ≡ file_byte fs inode
unfolding file_byte data_block block_addr
file_byte-length fs x inode = refl

pub inode_length-length :
    (fs : FileSystem) (x : ℤ) (inode : ℕ)
    → inode_length (record fs { length_of_file = x }) inode ≡ inode_length fs inode
unfolding inode_length
inode_length-length fs x inode = refl

-- A read, with the position, the length and the bytes of the file by other names.
read_from :
    (k : Kernel) (fd inode n : ℕ) (buf : Bytes) (es : List Event) (p len : ℕ) (bytes : Bytes)
    → IsReading k fd inode
    → 0 < n
    → (fd_of k fd).fileposition ≡ p
    → inode_length k.terminal.fs inode ≡ len
    → file_byte k.terminal.fs inode ≡ bytes
    → p + n < 2 ^ 32
    → (k' : Kernel) × (read k (pos fd) (some buf) (pos n) es
        ≡ returns (k', pos (min n (len - p)), slice_of bytes p (min n (len - p))))
read_from k fd inode n buf es p len bytes r z ep el eb w =
    let (k', e, at, r', x, same) = read_lem k fd inode n buf es r z (omega arith) in
    let p0 : ℕ = (fd_of k fd).fileposition in
    (
      k',
      e
          ∙ ap
              (λ l. returns (
                k',
                pos (min n (l - p0)),
                slice_of (file_byte k.terminal.fs inode) p0 (min n (l - p0)),
              ))
              el
          ∙ ap
              (λ q. returns (
                k',
                pos (min n (len - q)),
                slice_of (file_byte k.terminal.fs inode) q (min n (len - q)),
              ))
              ep
          ∙ ap (λ b. returns (k', pos (min n (len - p)), slice_of b p (min n (len - p)))) eb,
    )

-- Two reads in a row of an open file with good blocks, neither of them empty and with no wrap of
-- the position, get, put together, exactly the bytes that one read of the sum of their lengths
-- would get from the same position.
pub reads_lem :
    (k : Kernel) (fd inode n m : ℕ) (buf buf' : Bytes) (es es' : List Event)
    → IsReading k fd inode
    → 0 < n
    → 0 < m
    → (fd_of k fd).fileposition + n + m < 2 ^ 32
    → (k' : Kernel) × (k'' : Kernel) × (xs : List ℕ) × (ys : List ℕ) × (a : ℕ) × (b : ℕ) × (read k
          (pos fd)
          (some buf)
          (pos n)
          es
        ≡ returns (k', pos a, xs))
      × (read k' (pos fd) (some buf') (pos m) es' ≡ returns (k'', pos b, ys))
      × ((one : Kernel) × (read k (pos fd) (some buf) (pos (n + m)) es
            ≡ returns (one, pos (a + b), xs ++ ys)))
reads_lem k fd inode n m buf buf' es es' r zn zm w =
    let p : ℕ = (fd_of k fd).fileposition in
    let len : ℕ = inode_length k.terminal.fs inode in
    let bytes : Bytes = file_byte k.terminal.fs inode in
    let a : ℕ = min n (len - p) in
    let (k', e, at, r', x, same) = read_lem k fd inode n buf es r zn (omega arith) in
    let (one, e1, at1, r1, z, same1) =
      read_lem k fd inode (n + m) buf es r (omega arith) (omega arith) in
    let len_same : inode_length k'.terminal.fs inode ≡ len =
      ap (λ fs. inode_length fs inode) same ∙ inode_length-length k.terminal.fs x inode in
    let bytes_same : file_byte k'.terminal.fs inode ≡ bytes =
      ap (λ fs. file_byte fs inode) same ∙ file_byte-length k.terminal.fs x inode in
    let b : ℕ = min m (len - (p + a)) in
    let (k'', e') =
      read_from k' fd inode m buf' es' (p + a) len bytes r' zm at len_same bytes_same
        (omega arith) in
    let sum : min (n + m) (len - p) ≡ a + b = omega arith in
    (
      k',
      k'',
      slice_of bytes p a,
      slice_of bytes (p + a) b,
      a,
      b,
      e,
      e',
      (
        one,
        e1
            ∙ ap₂ (λ c s. returns (one, pos c, s)) sum
                (ap (slice_of bytes p) sum ∙ sym (append-slice_of bytes p a b)),
      ),
    )
