-- ===== src/FileSystem/Directory.antt =====
-- directory_read of student-distrib/files.c: what a program that lists the directory sees.
use project_my_os.Base.{
  ℕ, ◌+◌, ◌^◌, ◌≤◌, ◌<◌, ◌≡◌, ◌≢◌, some, ltb, leb, if◌then◌else◌, min, pos, arith, Bytes, ap,
  leb_of_lt, ◌>>=◌, length, length-slice_of, IsBytes, zero_loop, zero_loop_lem,
}
use project_my_os.Str.{strncpy, IsString}
use project_my_os.Str.Laws.{strlen_lem, strncpy_lem}
use project_my_os.FileSystem.{
  FileSystem, Dentry, dentry_name, directory_read, read_dentry_by_name, success, fail,
}
use project_my_os.FileSystem.Name.{NamesEnd, HasName, read_dentry_by_name_missing}

-- The buffer after the copy.
listed : FileSystem → Bytes → ℕ → Bytes
listed fs buf n = strncpy (zero_loop 33 0 buf) (dentry_name fs fs.entry_counter) (min n 32)

listed_lem :
    (fs : FileSystem) (buf : Bytes) (n k : ℕ)
    → IsString (dentry_name fs fs.entry_counter) n
    → k < 33
    → listed fs buf n k ≡ (if ltb k (min n 32) then dentry_name fs fs.entry_counter k else 0)
unfolding listed
listed_lem fs buf n k v h = ground (
  arith,
  strncpy_lem (zero_loop 33 0 buf) (dentry_name fs fs.entry_counter) n (min n 32) k v,
  zero_loop_lem 33 0 buf k,
)

listed-IsString :
    (fs : FileSystem) (buf : Bytes) (n : ℕ)
    → IsString (dentry_name fs fs.entry_counter) n
    → IsString (listed fs buf n) (min n 32)
listed-IsString fs buf n v = record {
  nul = ground (arith, listed_lem fs buf n (min n 32) v);
  chars = λ i l. ground (arith, listed_lem fs buf n i v, v.chars i);
  fits = omega arith;
}

directory_read-listed :
    (fs : FileSystem) (buf : Bytes) (n : ℕ)
    → fs.entry_counter < fs.my_boot_block.dentries_num
    → fs.my_boot_block.dentries_num < 2 ^ 31
    → IsString (dentry_name fs fs.entry_counter) n
    → directory_read fs buf
      ≡ some (record fs { entry_counter = fs.entry_counter + 1 }, pos (min n 32), listed fs buf n)
unfolding directory_read listed
directory_read-listed fs buf n h small v =
    let size : (if leb 32 n then 32 else n) ≡ min n 32 = ground arith in
    rw (
      leb_of_lt (2 ^ 31) fs.my_boot_block.dentries_num small,
      leb_of_lt fs.my_boot_block.dentries_num fs.entry_counter h,
      strlen_lem (dentry_name fs fs.entry_counter) n v,
      ◌>>=◌,
      size,
      strlen_lem (listed fs buf n) (min n 32) (listed-IsString fs buf n v),
      ◌>>=◌,
    )

-- While entries are left, a call stores the next name in the 33-byte buffer, cut at 32 characters
-- and followed by NULs, returns its length and moves on by one entry.
pub directory_read_lem :
    (fs : FileSystem) (buf : Bytes) (n : ℕ)
    → fs.entry_counter < fs.my_boot_block.dentries_num
    → fs.my_boot_block.dentries_num < 2 ^ 31
    → IsString (dentry_name fs fs.entry_counter) n
    → (out : Bytes) × (directory_read fs buf
        ≡ some (record fs { entry_counter = fs.entry_counter + 1 }, pos (min n 32), out))
      × ((k : ℕ)
          → k < 33
          → out k ≡ (if ltb k (min n 32) then dentry_name fs fs.entry_counter k else 0))
directory_read_lem fs buf n h small v =
    (listed fs buf n, directory_read-listed fs buf n h small v, λ k l. listed_lem fs buf n k v l)

-- Past the last entry a call returns 0 and starts over.
pub directory_read_wraps :
    (fs : FileSystem) (buf : Bytes)
    → fs.my_boot_block.dentries_num ≤ fs.entry_counter
    → (out : Bytes) × (directory_read fs buf ≡ some (record fs { entry_counter = 0 }, success, out))
      × ((k : ℕ) → k < 33 → out k ≡ 0)
unfolding directory_read
directory_read_wraps fs buf h =
    (zero_loop 33 0 buf, ground arith, λ k l. ground (arith, zero_loop_lem 33 0 buf k))

listed-IsBytes :
    (fs : FileSystem) (buf : Bytes) (n : ℕ)
    → IsString (dentry_name fs fs.entry_counter) n
    → IsBytes buf
    → IsBytes (dentry_name fs fs.entry_counter)
    → IsBytes (listed fs buf n)
unfolding listed
listed-IsBytes fs buf n v b d a = ground (
  arith,
  strncpy_lem (zero_loop 33 0 buf) (dentry_name fs fs.entry_counter) n (min n 32) a v,
  zero_loop_lem 33 0 buf a,
  b a,
  d a,
)

length-HasName :
    (fs : FileSystem) (len : ℕ → ℕ) (fname : Bytes) (m i : ℕ) → HasName fs len fname m i → len i ≡ m
length-HasName fs len fname m i h =
    omega
      (arith, ap length h, length-slice_of (dentry_name fs i) 0 (len i), length-slice_of fname 0 m)

-- A name that fills all 32 bytes of its field runs on into the type that follows. The directory
-- lists it by its 32 characters, yet the search by those characters fails, unless an entry has a
-- name of exactly 32 characters that ends with its field.
pub listed_name_not_found :
    (fs : FileSystem) (len : ℕ → ℕ) (buf : Bytes) (d : Dentry)
    → NamesEnd fs len
    → IsBytes buf
    → fs.entry_counter < fs.my_boot_block.dentries_num
    → fs.my_boot_block.dentries_num ≤ 63
    → 32 < len fs.entry_counter
    → ((j : ℕ) → j < 63 → len j ≢ 32)
    → (out : Bytes) × (directory_read fs buf
        ≡ some (record fs { entry_counter = fs.entry_counter + 1 }, pos 32, out))
      × IsString out 32
      × (read_dentry_by_name fs out d ≡ some (fail, d))
listed_name_not_found fs len buf d names b h small long others =
    let k : ℕ = fs.entry_counter in
    let v = names.ends k (omega arith) in
    let e : min (len k) 32 ≡ 32 = omega arith in
    let s = rw e at (listed-IsString fs buf (len k) v) in
    (
      listed fs buf (len k),
      rw (directory_read-listed fs buf (len k) h (omega arith) v, e),
      s,
      read_dentry_by_name_missing fs len (listed fs buf (len k)) 32 names
          (listed-IsBytes fs buf (len k) v b (names.bytes k)) s (omega arith) d (omega arith)
          (λ j l has. others j l (length-HasName fs len (listed fs buf (len k)) 32 j has)),
    )
