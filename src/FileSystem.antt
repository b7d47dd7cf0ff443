-- ===== src/FileSystem.antt =====
-- The read-only file system of student-distrib/files.c, over the machine's memory: the boot module
-- lies in it, and `dentries` and `inodes` are addresses there. A result `none` stands for a string
-- function that meets no NUL in the whole address space.
pub mod Read
pub mod Name
pub mod Directory
pub mod Show
use project_my_os.Base.{
  ℕ, zero, suc, ◌+◌, ◌-◌, ◌*◌, ◌/◌, ◌%◌, ◌^◌, Bool, true, false, ◌||◌, Option, none, some, List, [],
  ◌∷◌, ltb, leb, ◌==◌, if◌then◌else◌, ◌>>=◌, Bytes, zero_loop, read8, read32, ℤ, pos, minus_one,
  is_zero, is_minus_one,
}
use project_my_os.Str.{strlen, strncmp, strcpy, strncpy}

abbrev pub fs_unit_size : ℕ
fs_unit_size = 4096

abbrev pub size_fs_dentries : ℕ
size_fs_dentries = 63

abbrev pub success : ℤ
success = pos 0

abbrev pub fail : ℤ
fail = minus_one

-- `boot_block`, less its reserved bytes.
pub record BootBlock : Type 0 where
  pub dentries_num : ℕ
  pub inodes_num : ℕ
  pub datablocks_num : ℕ

-- `file_sys`
pub record FileAddr : Type 0 where
  pub st_boot_block : ℕ
  pub st_inode : ℕ
  pub st_data : ℕ

-- `dentry_t`, less its reserved bytes. `strcpy` may run past the 32 bytes of `filename`; what it
-- writes there falls on the two fields that `dentry_copy` assigns next.
pub record Dentry : Type 0 where
  pub filename : Bytes
  pub filetype : ℕ
  pub inode : ℕ

-- A local `dentry_t` before the call that fills it; no caller reads it unfilled.
abbrev pub blank_dentry : Dentry
blank_dentry = record { filename = λ i. 0; filetype = 0; inode = 0 }

-- The global variables of files.c, and the memory.
pub record FileSystem : Type 0 where
  pub ram : Bytes
  pub my_boot_block : BootBlock
  pub file_addr : FileAddr
  pub dentries : ℕ
  pub inodes : ℕ
  pub length_of_file : ℤ
  pub entry_counter : ℕ
  pub flag_open : ℕ

-- `filesystem_init`. The `memcpy` of 64 bytes fills the three counters of the boot block.
unfoldable pub filesystem_init : FileSystem → ℕ → ℕ → FileSystem × ℤ
filesystem_init fs fs_start fs_end = if fs_start == fs_end then (fs, fail) else (
  record fs {
    my_boot_block = boot;
    file_addr = record {
      st_boot_block = fs_start;
      st_inode = (fs_start + fs_unit_size) % 2 ^ 32;
      st_data = (fs_start + (boot.inodes_num + 1) * fs_unit_size) % 2 ^ 32;
    };
    dentries = (fs_start + 64) % 2 ^ 32;
    inodes = (fs_start + fs_unit_size) % 2 ^ 32;
    entry_counter = 0;
  },
  success,
)
  where
    boot : BootBlock
    boot = record {
      dentries_num = read32 fs.ram fs_start;
      inodes_num = read32 fs.ram (fs_start + 4);
      datablocks_num = read32 fs.ram (fs_start + 8);
    }

-- `dentries[i].filename`, `.filetype` and `.inode`
unfoldable pub dentry_name : FileSystem → ℕ → Bytes
dentry_name fs i j = read8 fs.ram (fs.dentries + 64 * i + j)

unfoldable pub dentry_filetype : FileSystem → ℕ → ℕ
dentry_filetype fs i = read32 fs.ram (fs.dentries + 64 * i + 32)

unfoldable pub dentry_inode : FileSystem → ℕ → ℕ
dentry_inode fs i = read32 fs.ram (fs.dentries + 64 * i + 36)

-- `inodes[i].length` and `inodes[i].data_blocks[k]`
unfoldable pub inode_length : FileSystem → ℕ → ℕ
inode_length fs i = read32 fs.ram (fs.inodes + i * fs_unit_size)

unfoldable pub data_block : FileSystem → ℕ → ℕ → ℕ
data_block fs i k = read32 fs.ram (fs.inodes + i * fs_unit_size + 4 + 4 * k)

unfoldable pub dentry_copy : FileSystem → ℕ → Dentry → Option Dentry
dentry_copy fs index dentry = do
  copied ← strcpy dentry.filename (dentry_name fs index)
  some (record {
    filename = copied;
    filetype = dentry_filetype fs index;
    inode = dentry_inode fs index;
  })

-- `size` of the search: the first of the two statements that set it is overwritten by the second.
-- The lengths are compared as `int`.
unfoldable pub name_size : ℕ → ℕ → ℕ
name_size sizefile sizedentry =
    if ltb sizedentry sizefile || leb (2 ^ 31) sizedentry then sizefile else sizedentry

-- The loop of `read_dentry_by_name`, `r` rounds from entry `i` on.
unfoldable pub name_loop : FileSystem → Bytes → Dentry → ℕ → ℕ → Option (ℤ × Dentry)
name_loop fs fname dentry zero i = some (fail, dentry)
name_loop fs fname dentry (suc r) i = do
  sizefile ← strlen fname
  sizedentry ← strlen (dentry_name fs i)
  elim (is_zero (strncmp (dentry_name fs i) fname (name_size sizefile sizedentry))) [
    | true ↦ dentry_copy fs i dentry >>= λ d. some (success, d)
    | false ↦ name_loop fs fname dentry r (i + 1)
  ]

unfoldable pub read_dentry_by_name : FileSystem → Bytes → Dentry → Option (ℤ × Dentry)
read_dentry_by_name fs fname dentry = do
  length ← strlen fname
  if length == 0 || leb (2 ^ 31) length
      then some (fail, dentry)
      else name_loop fs fname dentry size_fs_dentries 0

unfoldable pub read_dentry_by_index : FileSystem → ℕ → Dentry → Option (ℤ × Dentry)
read_dentry_by_index fs index dentry =
    if leb size_fs_dentries index || leb fs.my_boot_block.inodes_num index
    then some (fail, dentry)
    else dentry_copy fs index dentry >>= λ d. some (success, d)

-- `read_data`, `read_data_block` and `read_addr` of the function `read_data`.
pub record ReadPos : Type 0 where
  pub read_data : ℕ
  pub read_data_block : ℕ
  pub read_addr : ℕ

-- What `read_data` returns, the bytes that it stored from `buf[0]` on, and `length_of_file` after.
pub record ReadResult : Type 0 where
  pub ret : ℤ
  pub written : List ℕ
  pub length_of_file : ℤ

-- The address of a byte of a data block. Addresses are reduced to 32 bits by the load.
unfoldable pub block_addr : FileSystem → ℕ → ℕ → ℕ
block_addr fs inode k = fs.file_addr.st_data + data_block fs inode k * fs_unit_size

-- The first test of the loop: at the end of a block go on to the next, if its number is good.
unfoldable pub next_block : FileSystem → ℕ → ReadPos → Option ReadPos
next_block fs inode p =
    if leb fs_unit_size p.read_data
    then (if leb fs.my_boot_block.datablocks_num (data_block fs inode (p.read_data_block + 1))
        then none
        else some (record {
          read_data = 0;
          read_data_block = p.read_data_block + 1;
          read_addr = block_addr fs inode (p.read_data_block + 1);
        }))
    else some p

-- The loop of `read_data`, `r` rounds from byte `i` on. The source's `i` is an `int` that is compared
-- as an unsigned word and returned as it is: the two agree for reads of less than 2 ^ 31 bytes.
unfoldable pub read_loop : FileSystem → ℕ → ℕ → ℕ → ℕ → ReadPos → ReadResult
read_loop fs inode offset zero i p = record { ret = pos i; written = []; length_of_file = pos i }
read_loop fs inode offset (suc r) i p = elim (next_block fs inode p) [
  | none ↦ record { ret = fail; written = []; length_of_file = fs.length_of_file }
  | some q ↦ elim (leb (inode_length fs inode) ((i + offset) % 2 ^ 32)) [
    | true ↦ record { ret = pos i; written = []; length_of_file = pos i }
    | false ↦
        let rest =
          read_loop fs inode offset r (i + 1)
            (record q { read_data = q.read_data + 1; read_addr = q.read_addr + 1 }) in
        record rest { written = read8 fs.ram q.read_addr ∷ rest.written }
  ]
]

unfoldable pub read_data : FileSystem → ℕ → ℕ → ℕ → ReadResult
read_data fs inode offset length =
    let block : ℕ = offset / fs_unit_size in
    if leb (inode_length fs inode) offset
    then record { ret = pos 0; written = []; length_of_file = fs.length_of_file }
    else if leb fs.my_boot_block.inodes_num inode
        || leb fs.my_boot_block.datablocks_num (data_block fs inode block)
    then record { ret = fail; written = []; length_of_file = pos 0 }
    else read_loop fs inode offset length 0 (record {
      read_data = offset % fs_unit_size;
      read_data_block = block;
      read_addr = block_addr fs inode block + offset % fs_unit_size;
    })

-- A call of `read_data` as part of a larger one: the bytes go to the caller's buffer.
unfoldable pub after_read : FileSystem → ReadResult → FileSystem × ℤ × List ℕ
after_read fs r = (record fs { length_of_file = r.length_of_file }, r.ret, r.written)

-- The bytes of the program that `file_load` stores from `addr` on.
unfoldable pub file_load : FileSystem → Option Bytes → Option (FileSystem × ℤ × List ℕ)
unfolding after_read
file_load fs none = some (fs, fail, [])
file_load fs (some fname) = do
  n ← strlen fname
  if n == 0
      then some (fs, fail, [])
      else (read_dentry_by_name fs fname blank_dentry >>= λ found.
          if is_minus_one found.0
          then some (fs, fail, [])
          else some (after_read fs (read_data fs found.1.inode 0 (inode_length fs found.1.inode))))

-- `buf` counts only for whether it is NULL.
unfoldable pub file_read :
    FileSystem → Bool → ℕ → ℕ → Option Bytes → Option (FileSystem × ℤ × List ℕ)
unfolding after_read
file_read fs buf_is_null offset length none = some (fs, fail, [])
file_read fs buf_is_null offset length (some name) =
    if buf_is_null || length == 0
    then some (fs, fail, [])
    else (read_dentry_by_name fs name blank_dentry >>= λ found.
        if is_minus_one found.0
        then some (fs, fail, [])
        else some (after_read fs (read_data fs found.1.inode offset length)))

unfoldable pub file_open : FileSystem → ℕ → ℕ → FileSystem × ℤ
file_open fs fs_start fs_end =
    ((filesystem_init (record fs { flag_open = 1 }) fs_start fs_end).0, success)

unfoldable pub file_close : FileSystem → FileSystem × ℤ
file_close fs = (fs, success)

unfoldable pub file_write : FileSystem → FileSystem × ℤ
file_write fs = (fs, fail)

abbrev pub sbufsize : ℕ
sbufsize = 33

-- The state, the result and the buffer after the call. `num_node` is an `int`; so is the length of
-- the name, which is taken to be below 2 ^ 31.
unfoldable pub directory_read : FileSystem → Bytes → Option (FileSystem × ℤ × Bytes)
directory_read fs buf =
    let n = fs.my_boot_block.dentries_num in
    let cleared = zero_loop sbufsize 0 buf in
    if leb (2 ^ 31) n || leb n fs.entry_counter
    then some (record fs { entry_counter = 0 }, success, cleared)
    else (strlen (dentry_name fs fs.entry_counter) >>= λ len.
        let size = if leb (sbufsize - 1) len then sbufsize - 1 else len in
        let filled = strncpy cleared (dentry_name fs fs.entry_counter) size in
        strlen filled >>= λ m.
        some (record fs { entry_counter = fs.entry_counter + 1 }, pos m, filled))

unfoldable pub directory_write : FileSystem → FileSystem × ℤ
directory_write fs = (fs, fail)

unfoldable pub directory_close : FileSystem → FileSystem × ℤ
directory_close fs = (fs, success)

unfoldable pub directory_open : FileSystem → FileSystem × ℤ
directory_open fs = (fs, success)
