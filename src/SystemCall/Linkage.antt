-- ===== src/SystemCall/Linkage.antt =====
-- A read of a file through asm_linkage of student-distrib/handler.S, from the registers of the
-- program to its buffer.
use project_my_os.Base.{
  ℕ, zero, suc, ◌+◌, ◌-◌, ◌^◌, ◌<◌, ◌≡◌, ◌≢◌, not, ◌&&◌, some, List, ltb, if◌then◌else◌, Bytes,
  from, get_or, slice_of, length-slice_of, min, ℤ, pos, ne→==, lt→ltb, arith,
}
use project_my_os.FileSystem.{inode_length}
use project_my_os.FileSystem.Read.{file_byte}
use project_my_os.SystemCall.{Kernel, returns, ◌>>>◌}
use project_my_os.SystemCall.Files.{read}
use project_my_os.SystemCall.Process.{result}
use project_my_os.SystemCall.Descriptors.{fd_of}
use project_my_os.SystemCall.Position.{IsReading, read_lem}
use project_my_os.SystemCall.Dispatch.{
  Registers, Surroundings, int32, pointer, stored, number_in_table, perform, asm_linkage,
}

pub get_or-slice_of : (f : ℕ → ℕ) (a n i : ℕ) → i < n → get_or (slice_of f a n) i 0 ≡ f (a + i)
unfolding slice_of
get_or-slice_of f a zero i h = absurd (omega arith)
get_or-slice_of f a (suc n) zero h = let e : a + 0 ≡ a = omega arith in rw e
get_or-slice_of f a (suc n) (suc i) h =
    let e : a + suc i ≡ a + 1 + i = omega arith in
    rw e (get_or-slice_of f (a + 1) n i (omega arith))

at_address :
    (mem : Bytes) (p : ℕ) (f : ℕ → ℕ) (s n a : ℕ)
    → (if not (ltb a p) && ltb (a - p) n then get_or (slice_of f s n) (a - p) 0 else mem a)
      ≡ (if not (ltb a p) && ltb (a - p) n then f (s + (a - p)) else mem a)
at_address mem p f s n a = ground (arith, get_or-slice_of f s n (a - p))

-- Memory after `n` bytes of a function are stored at `p`.
pub stored-slice_of :
    (mem : Bytes) (p : ℕ) (f : ℕ → ℕ) (s n a : ℕ)
    → stored mem p (slice_of f s n) a
      ≡ (if not (ltb a p) && ltb (a - p) n then f (s + (a - p)) else mem a)
unfolding stored
stored-slice_of mem p f s n a = rw (length-slice_of f s n) (at_address mem p f s n a)

int32-pos : (w : ℕ) → w < 2 ^ 31 → int32 w ≡ pos w
unfolding int32
int32-pos w h = rw (lt→ltb w (2 ^ 31) h)

pointer-some : (mem : Bytes) (p : ℕ) → p ≢ 0 → pointer mem p ≡ some (from mem p)
unfolding pointer
pointer-some mem p h = rw (ne→== p 0 h)

-- A read that returns, between the registers and memory.
read_call_lem :
    (e : Surroundings) (mem : Bytes) (r : Registers) (k k' : Kernel) (bytes : List ℕ) (ret : ℤ)
    → r.eax ≡ pos 3
    → r.ebx < 2 ^ 31
    → r.ecx ≢ 0
    → r.edx < 2 ^ 31
    → read k (pos r.ebx) (some (from mem r.ecx)) (pos r.edx) e.events ≡ returns (k', ret, bytes)
    → asm_linkage e mem r k ≡ returns (k', stored mem r.ecx bytes, result ret)
unfolding asm_linkage number_in_table perform
read_call_lem e mem r k k' bytes ret number fd buf signed runs =
    rw (number, int32-pos r.ebx fd, int32-pos r.edx signed, pointer-some mem r.ecx buf, runs, ◌>>>◌)

-- A program's read of a file: with 3 in %eax, an open descriptor of a file with good blocks in
-- %ebx, a buffer that is not NULL in %ecx and a positive signed count in %edx, with no wrap of the
-- position, the call returns the number of bytes that are left, at most the count; memory has
-- exactly these bytes of the file in the buffer and is otherwise unchanged; the position has moved
-- by that number.
pub asm_linkage_reads :
    (e : Surroundings) (mem : Bytes) (r : Registers) (k : Kernel) (inode : ℕ)
    → IsReading k r.ebx inode
    → r.eax ≡ pos 3
    → r.ecx ≢ 0
    → 0 < r.edx
    → r.edx < 2 ^ 31
    → (fd_of k r.ebx).fileposition + r.edx < 2 ^ 32
    → let p = (fd_of k r.ebx).fileposition in
      let m = min r.edx (inode_length k.terminal.fs inode - p) in
      (k' : Kernel) × (mem' : Bytes) × (asm_linkage e mem r k ≡ returns (k', mem', result (pos m)))
      × ((a : ℕ)
          → mem' a ≡ (
              if not (ltb a r.ecx) && ltb (a - r.ecx) m
              then file_byte k.terminal.fs inode (p + (a - r.ecx))
              else mem a))
      × ((fd_of k' r.ebx).fileposition ≡ p + m)
      × IsReading k' r.ebx inode
asm_linkage_reads e mem r k inode reading number buf some_bytes signed fits =
    let p : ℕ = (fd_of k r.ebx).fileposition in
    let m : ℕ = min r.edx (inode_length k.terminal.fs inode - p) in
    let (k', runs, moved, still, x, same) =
      read_lem k r.ebx inode r.edx (from mem r.ecx) e.events reading some_bytes fits in
    let bytes : List ℕ = slice_of (file_byte k.terminal.fs inode) p m in
    (
      k',
      stored mem r.ecx bytes,
      read_call_lem e mem r k k' bytes (pos m) number (omega (arith, reading.in_range)) buf signed
          runs,
      λ a. stored-slice_of mem r.ecx (file_byte k.terminal.fs inode) p m a,
      moved,
      still,
    )
