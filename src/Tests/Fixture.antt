-- ===== src/Tests/Fixture.antt =====
-- A small file system image, and a terminal and a kernel that use it.
use project_my_os.Base.{
  length, ℕ, zero, suc, ◌+◌, ◌-◌, ◌*◌, ◌%◌, ◌^◌, ◌<◌, ◌≡◌, refl, Bool, true, List, [], ◌∷◌, ◌++◌,
  ltb, ◌==◌, ◌&&◌, not, if◌then◌else◌, Bytes, IsBytes, read8, codes, get_or, pos, arith, all_below,
  all_below_sound,
}
use project_my_os.Str.{IsString, bytes_of}
use project_my_os.FileSystem.{FileSystem, dentry_name}
use project_my_os.FileSystem.Name.{NamesEnd}

-- The length of a file of less than 256 bytes, and its block number 1.
abbrev pub inode_bytes : List ℕ → List ℕ
inode_bytes content = length content ∷ 0 ∷ 0 ∷ 0 ∷ 1 ∷ []

-- One directory entry of 64 bytes at 64; inode 1, of a file in block 1, at 8192; that
-- block at 16384.
abbrev pub ram : List ℕ → List ℕ → Bytes
ram entry content a =
    if ltb a 64
    then 0
    else if ltb a 128
    then get_or entry (a - 64) 0
    else if ltb a 8192
    then 0
    else if ltb a 8200
    then get_or (inode_bytes content) (a - 8192) 0
    else if ltb a 16384
    then 0
    else get_or content (a - 16384) 0

-- The state of the file system over that image.
abbrev pub image : List ℕ → List ℕ → FileSystem
image entry content = record {
  ram = ram entry content;
  my_boot_block = record { dentries_num = 1; inodes_num = 2; datablocks_num = 2 };
  file_addr = record { st_boot_block = 0; st_inode = 4096; st_data = 12288 };
  dentries = 64;
  inodes = 4096;
  length_of_file = pos 0;
  entry_counter = 0;
  flag_open = 1;
}

-- The name "frame", of type 2 and inode 1.
abbrev pub frame_entry : List ℕ
frame_entry =
    codes "frame"
    ++ (0 ∷ 0 ∷ 0 ∷ 0 ∷ 0 ∷ 0 ∷ 0 ∷ 0 ∷ 0 ∷ 0 ∷ 0 ∷ 0 ∷ 0 ∷ 0 ∷ 0 ∷ 0 ∷ 0 ∷ 0 ∷ 0 ∷ 0 ∷ 0 ∷ 0 ∷ 0
        ∷ 0 ∷ 0 ∷ 0 ∷ 0 ∷ 2 ∷ 0 ∷ 0 ∷ 0 ∷ 1 ∷ [])

-- A name of 32 characters with no NUL, of type 2 and inode 1.
abbrev pub long_entry : List ℕ
long_entry = codes "verylargetextwithverylongname.tx" ++ (2 ∷ 0 ∷ 0 ∷ 0 ∷ 1 ∷ [])

abbrev pub frame_image : FileSystem
frame_image = image frame_entry (codes "hello")

abbrev pub long_image : FileSystem
long_image = image long_entry (codes "hello")

-- The lengths of the names: `n` for the first, 0 for the others.
abbrev pub lengths : ℕ → ℕ → ℕ
lengths n i = if i == 0 then n else 0

unfoldable pub small : List ℕ → Bool
small [] = true
small (c ∷ cs) = ltb c 256 && small cs

get_or-small : (l : List ℕ) (i : ℕ) → small l ≡ true → get_or l i 0 < 256
unfolding small
get_or-small [] i h = omega arith
get_or-small (c ∷ cs) zero h = ground arith
get_or-small (c ∷ cs) (suc i) h = get_or-small cs i (ground arith)

pub bytes_of-IsBytes : (l : List ℕ) → small l ≡ true → IsBytes (bytes_of l)
bytes_of-IsBytes l h i = get_or-small l i h

-- A content that the image has room for.
abbrev IsSmall : List ℕ → Type 0
IsSmall content = (small content ≡ true) × (small (inode_bytes content) ≡ true)

ram-small :
    (entry content : List ℕ) → small entry ≡ true → IsSmall content → IsBytes (ram entry content)
ram-small entry content h c a = ground (
  arith,
  get_or-small entry (a - 64) h,
  get_or-small content (a - 16384) c.0,
  get_or-small (inode_bytes content) (a - 8192) c.1,
)

-- The name of the first entry ends after `n` characters.
abbrev IsNamed : List ℕ → ℕ → Type 0
IsNamed entry n =
    (get_or entry n 0 ≡ 0) × (all_below n (λ i. not (get_or entry i 0 == 0)) ≡ true) × (n < 64)

name-first :
    (entry content : List ℕ) (n : ℕ)
    → IsNamed entry n
    → IsString (dentry_name (image entry content) 0) n
unfolding dentry_name read8
name-first entry content n h = record {
  nul = ground (arith, h.0, h.2);
  chars = λ i l. ground (arith, all_below_sound n (λ i. not (get_or entry i 0 == 0)) i h.1 l, h.2);
  fits = omega (arith, h.2);
}

name-other :
    (entry content : List ℕ) (i : ℕ)
    → 0 < i
    → i < 63
    → IsString (dentry_name (image entry content) i) 0
unfolding dentry_name read8
name-other entry content i z h = record {
  nul = ground arith;
  chars = λ j l. absurd (omega arith);
  fits = omega arith;
}

names_end :
    (entry content : List ℕ) (n : ℕ)
    → small entry ≡ true
    → IsSmall content
    → IsNamed entry n
    → NamesEnd (image entry content) (lengths n)
unfolding dentry_name read8
names_end entry content n s c h = record {
  bytes = λ i a. ram-small entry content s c ((64 + 64 * i + a) % 2 ^ 32);
  ends = λ i l. ground (arith, name-first entry content n h, name-other entry content i);
  short = λ i l. ground (arith, h.2);
}

pub frame_image-NamesEnd : NamesEnd frame_image (lengths 5)
unfolding small all_below
frame_image-NamesEnd =
    names_end frame_entry (codes "hello") 5 refl (refl, refl) (refl, refl, omega arith)

pub long_image-NamesEnd : NamesEnd long_image (lengths 33)
unfolding small all_below
long_image-NamesEnd =
    names_end long_entry (codes "hello") 33 refl (refl, refl) (refl, refl, omega arith)

-- The start of a program's file: the magic bytes, and the entry point 0x08048094 at byte 24.
abbrev pub elf : List ℕ
elf =
    0x7f ∷ 0x45 ∷ 0x4c ∷ 0x46 ∷ 1 ∷ 1 ∷ 1 ∷ 0 ∷ 0 ∷ 0 ∷ 0 ∷ 0 ∷ 0 ∷ 0 ∷ 0 ∷ 0 ∷ 2 ∷ 0 ∷ 3 ∷ 0 ∷ 1
    ∷ 0 ∷ 0 ∷ 0 ∷ 0x94 ∷ 0x80 ∷ 0x04 ∷ 0x08 ∷ []

abbrev pub elf_image : FileSystem
elf_image = image frame_entry elf

pub elf_image-NamesEnd : NamesEnd elf_image (lengths 5)
unfolding small all_below
elf_image-NamesEnd = names_end frame_entry elf 5 refl (refl, refl) (refl, refl, omega arith)
