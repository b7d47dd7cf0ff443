-- ===== src/Boot.antt =====
-- The entry of the kernel, student-distrib/kernel.c, with the structures of
-- student-distrib/multiboot.h, which the boot loader leaves in memory.
pub mod Segments
pub mod Entry
pub mod Messages
pub mod Ready
pub mod Started
use project_my_os.Base.{
  ℕ, zero, suc, ◌+◌, ◌-◌, ◌*◌, ◌/◌, ◌%◌, ◌^◌, Bool, true, false, not, ◌&&◌, Option, none, some,
  List, [], ◌∷◌, ◌++◌, ltb, ◌==◌, if◌then◌else◌, ◌>>=◌, Bytes, from, read8, read32, codes, bit_and,
}
use project_my_os.Screen.{Screen}
use project_my_os.Printf.{Arg, word, text, printf}

-- `multiboot_info_t`
pub record MultibootInfo : Type 0 where
  pub flags : ℕ
  pub mem_lower : ℕ
  pub mem_upper : ℕ
  pub boot_device : ℕ
  pub cmdline : ℕ
  pub mods_count : ℕ
  pub mods_addr : ℕ
  pub elf_num : ℕ
  pub elf_size : ℕ
  pub elf_addr : ℕ
  pub elf_shndx : ℕ
  pub mmap_length : ℕ
  pub mmap_addr : ℕ

-- The structure at an address, word by word.
unfoldable pub multiboot_info : Bytes → ℕ → MultibootInfo
multiboot_info ram addr = record {
  flags = read32 ram addr;
  mem_lower = read32 ram (addr + 4);
  mem_upper = read32 ram (addr + 8);
  boot_device = read32 ram (addr + 12);
  cmdline = read32 ram (addr + 16);
  mods_count = read32 ram (addr + 20);
  mods_addr = read32 ram (addr + 24);
  elf_num = read32 ram (addr + 28);
  elf_size = read32 ram (addr + 32);
  elf_addr = read32 ram (addr + 36);
  elf_shndx = read32 ram (addr + 40);
  mmap_length = read32 ram (addr + 44);
  mmap_addr = read32 ram (addr + 48);
}

abbrev pub bootloader_magic : ℕ
bootloader_magic = 0x2BADB002

-- `CHECK_FLAG`
unfoldable pub check_flag : ℕ → ℕ → Bool
check_flag flags bit = not (bit_and flags (2 ^ bit) == 0)

-- `printf`, less its result.
abbrev pub say : Screen → List ℕ → List Arg → Option Screen
say s format args = printf s format args >>= λ done. some done.0

-- A `char` as an argument: it is sign-extended to a word.
abbrev pub char_word : ℕ → ℕ
char_word c = if ltb c 128 then c else (c + 4294967040)

-- The loop over the first bytes of a module, `r` left from byte `i` on.
unfoldable pub bytes_loop : (r : ℕ) → Bytes → (mod_start i : ℕ) → Screen → Option Screen
bytes_loop zero ram mod_start i s = some s
bytes_loop (suc r) ram mod_start i s =
    say s (codes "0x%x ") (word (char_word (read8 ram (mod_start + i))) ∷ []) >>= λ t.
    bytes_loop r ram mod_start (i + 1) t

-- What is printed of module `mod_count`, whose `module_t` stands at `at`.
unfoldable pub print_module : Bytes → (at mod_count : ℕ) → Screen → Option Screen
unfolding bytes_loop
print_module ram at mod_count s =
    say s (codes "Module %d loaded at address: 0x%#x\n")
      (word mod_count ∷ word (read32 ram at) ∷ [])
    >>= λ s1.
        say s1 (codes "Module %d ends at address: 0x%#x\n")
          (word mod_count ∷ word (read32 ram (at + 4)) ∷ [])
        >>= λ s2. say s2 (codes "First few bytes of module:\n") [] >>= λ s3.
            bytes_loop 16 ram (read32 ram at) 0 s3 >>= λ s4. say s4 (codes "\n") []

-- `while (mod_count < mbi->mods_count)`, `r` modules left.
unfoldable pub modules_loop : (r : ℕ) → Bytes → (at mod_count : ℕ) → Screen → Option Screen
unfolding print_module
modules_loop zero ram at mod_count s = some s
modules_loop (suc r) ram at mod_count s =
    print_module ram at mod_count s >>= λ t. modules_loop r ram (at + 16) (mod_count + 1) t

-- The loop over the memory map up to address `end`, with fuel; addresses wrap.
unfoldable pub mmap_loop : ℕ → Bytes → (mmap end : ℕ) → Screen → Option Screen
mmap_loop zero ram mmap end s = none
mmap_loop (suc f) ram mmap end s = elim (ltb mmap end) [
  | false ↦ some s
  | true ↦
      say s
        (codes " size = 0x%x,     base_addr = 0x%#x%#x\n     type = 0x%x,  length    = 0x%#x%#x\n")
        (word (read32 ram mmap)
          ∷ word (read32 ram (mmap + 8))
          ∷ word (read32 ram (mmap + 4))
          ∷ word (read32 ram (mmap + 20))
          ∷ word (read32 ram (mmap + 16))
          ∷ word (read32 ram (mmap + 12))
          ∷ [])
      >>= λ t. mmap_loop f ram ((mmap + read32 ram mmap + 4) % 2 ^ 32) end t
]

-- What is printed of the memory map.
unfoldable pub print_mmap : Bytes → MultibootInfo → Screen → Option Screen
unfolding mmap_loop
print_mmap ram mbi s =
    say s (codes "mmap_addr = 0x%#x, mmap_length = 0x%x\n")
      (word mbi.mmap_addr ∷ word mbi.mmap_length ∷ [])
    >>= λ t. mmap_loop (2 ^ 32) ram mbi.mmap_addr ((mbi.mmap_addr + mbi.mmap_length) % 2 ^ 32) t

-- A step of the printing, made if its flag is set.
unfoldable pub when : Bool → (Screen → Option Screen) → Screen → Option Screen
when true print s = print s
when false print s = some s

-- The printing up to the test of bits 4 and 5.
unfoldable pub print_first : Bytes → MultibootInfo → Screen → Option Screen
unfolding check_flag modules_loop
print_first ram mbi s = say s (codes "flags = 0x%#x\n") (word mbi.flags ∷ []) >>= λ s1.
    when (check_flag mbi.flags 0)
      (λ t.
        say t (codes "mem_lower = %uKB, mem_upper = %uKB\n")
          (word mbi.mem_lower ∷ word mbi.mem_upper ∷ []))
      s1
    >>= λ s2.
        when (check_flag mbi.flags 1)
          (λ t. say t (codes "boot_device = 0x%#x\n") (word mbi.boot_device ∷ [])) s2
        >>= λ s3.
            when (check_flag mbi.flags 2)
              (λ t. say t (codes "cmdline = %s\n") (text (from ram mbi.cmdline) ∷ [])) s3
            >>= λ s4.
                when (check_flag mbi.flags 3) (modules_loop mbi.mods_count ram mbi.mods_addr 0) s4

-- The printing behind that test.
unfoldable pub print_second : Bytes → MultibootInfo → Screen → Option Screen
unfolding check_flag print_mmap
print_second ram mbi s =
    when (check_flag mbi.flags 5)
      (λ t.
        say t (codes "elf_sec: num = %u, size = 0x%#x, addr = 0x%#x, shndx = 0x%#x\n")
          (word mbi.elf_num ∷ word mbi.elf_size ∷ word mbi.elf_addr ∷ word mbi.elf_shndx ∷ []))
      s
    >>= λ s1. when (check_flag mbi.flags 6) (print_mmap ram mbi) s1
