-- ===== src/FileSystem/Show.antt =====
-- The three displays of student-distrib/files.c that the keyboard starts: print_allfile_name,
-- files_test and file_index.
use project_my_os.Base.{
  ℕ, zero, suc, ◌+◌, ◌-◌, ◌^◌, true, false, Option, some, [], ◌∷◌, leb, ◌==◌, if◌then◌else◌, ◌>>=◌,
  Bytes, List, is_zero, rounds, codes, get_or, length, ltb,
}
use project_my_os.Screen.{Screen, clear}
use project_my_os.Printf.{word, printf}
use project_my_os.Str.{strlen, bytes_of}
use project_my_os.FileSystem.{
  FileSystem, Dentry, dentry_name, dentry_filetype, inode_length, read_dentry_by_name,
  read_dentry_by_index, read_data, after_read,
}

-- A `printf` whose result is dropped.
abbrev say : Screen → List ℕ → Option Screen
say s format = printf s format [] >>= λ r. some r.0

-- The loop over the 32 bytes of a name, `r` left: a character, or a blank for a NUL.
unfoldable pub name_cells : ℕ → Bytes → ℕ → Screen → Option Screen
name_cells zero name j s = some s
name_cells (suc r) name j s = do
  t ←
      if name j == 0
      then say s (codes " ")
      else (printf s (codes "%c") (word (name j) ∷ []) >>= λ p. some p.0)
  name_cells r name (j + 1) t

unfoldable pub type_text : ℕ → List ℕ
type_text t =
    if t == 0
    then codes "   Filetype: RTC"
    else if t == 1
    then codes "   Filetype: Directory"
    else if t == 2
    then codes "   Filetype: Regular file"
    else codes "   Filetype: Invalid file type"

-- The loop of `print_allfile_name`, `r` entries from number `i` on.
unfoldable pub allfile_loop : FileSystem → ℕ → ℕ → Screen → Option Screen
allfile_loop fs zero i s = some s
allfile_loop fs (suc r) i s = do
  t ← name_cells 32 (dentry_name fs i) 0 s
  u ← say t (type_text (dentry_filetype fs i))
  v ← say u (codes "\n")
  allfile_loop fs r (i + 1) v

-- `num_node` is an `int`; entry 0 is left out.
unfoldable pub print_allfile_name : FileSystem → Screen → Option Screen
print_allfile_name fs s = do
  a ← say (clear s) (codes "-----------------------------------------.\n")
  b ← say a (codes " Below is all the file in this computer.\n")
  c ← say b (codes "-----------------------------------------.\n")
  allfile_loop fs (if leb (2 ^ 31) n then 0 else n - 1) 1 c
  where
    n : ℕ
    n = fs.my_boot_block.dentries_num

-- The print loop of `files_test`, `r` bytes from index `i` on.
unfoldable pub print_bytes : ℕ → Bytes → ℕ → Screen → Option Screen
print_bytes zero buf i s = some s
print_bytes (suc r) buf i s = do
  t ← printf s (codes "%c") (word (buf i) ∷ [])
  print_bytes r buf (i + 1) t.0

-- The end of `files_test`. `stack_buf` is the local buffer as the stack leaves it.
unfoldable pub show_file : FileSystem → ℕ → Bytes → Screen → Option (FileSystem × Screen)
show_file fs inode stack_buf s =
    let r = read_data fs inode 0 (inode_length fs inode) in
    let shown =
      if is_zero r.ret
      then print_bytes (rounds r.length_of_file)
          (λ i. if ltb i (length r.written) then get_or r.written i 0 else stack_buf i) 0 s
      else say s (codes "FAIL TO READ FILE.\n") in
    shown >>= λ t. some ((after_read fs r).0, t)

-- `files_test`. The local entry starts as the stack leaves it, and is read even if not found.
unfoldable pub files_test : FileSystem → Screen → Bytes → Dentry → Option (FileSystem × Screen)
files_test fs s stack_buf stack = do
  found ← read_dentry_by_name fs (bytes_of (codes "frame0.txt")) stack
  a ← say (clear s) (codes "-----------------------------------------.\n")
  b ← say a (codes "   Reading file by name: 'frame0.txt'.\n")
  c ← say b (codes "-----------------------------------------.\n")
  show_file fs found.1.inode stack_buf c

-- The name loop of `file_index`, `r` bytes from index `i` on: it ends at a NUL.
unfoldable pub name_chars : ℕ → Bytes → ℕ → Screen → Option Screen
name_chars zero name i s = some s
name_chars (suc r) name i s = elim (name i == 0) [
  | true ↦ some s
  | false ↦ printf s (codes "%c") (word (name i) ∷ []) >>= λ t. name_chars r name (i + 1) t.0
]

unfoldable pub file_index : FileSystem → ℕ → Screen → Dentry → Option Screen
file_index fs a s stack = do
  b ← say (clear s) (codes "-----------------------------------------.\n")
  c ← printf b (codes "       Reading file by index: %d.\n") (word a ∷ [])
  d ← say c.0 (codes "-----------------------------------------.\n")
  found ← read_dentry_by_index fs a stack
  e ←
      if is_zero found.0
      then (strlen found.1.filename >>= λ n.
          if n == 0
          then say d (codes "READ FAIL: empty file.")
          else name_chars 32 found.1.filename 0 d)
      else say d (codes "Read fail: Index does not exist")
  say e (codes "\n")
