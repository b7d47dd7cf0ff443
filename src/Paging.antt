-- ===== src/Paging.antt =====
-- The page tables of student-distrib/mypaging.c: init_paging and create_paging.
pub mod Loops
pub mod Create
use project_my_os.Base.{
  ℕ, zero, suc, ◌+◌, ◌-◌, ◌*◌, ◌/◌, ◌%◌, ◌^◌, Bool, true, false, ◌||◌, Option, none, some, ltb, leb,
  ◌==◌, if◌then◌else◌, update, bit_and, bit_or,
}

-- `pe_4KB`
pub record PageEntry : Type 0 where
  pub present : ℕ
  pub read_write : ℕ
  pub user_supervisor : ℕ
  pub write_through : ℕ
  pub cache_disabled : ℕ
  pub accessed : ℕ
  pub dirty : ℕ
  pub pat : ℕ
  pub global : ℕ
  pub available : ℕ
  pub base_addr : ℕ

-- `pde_4KB`
pub record TableEntry : Type 0 where
  pub present : ℕ
  pub read_write : ℕ
  pub user_supervisor : ℕ
  pub write_through : ℕ
  pub cache_disabled : ℕ
  pub accessed : ℕ
  pub reserved : ℕ
  pub page_size : ℕ
  pub global_page : ℕ
  pub available : ℕ
  pub base_addr : ℕ

-- `pde_4MB`, less its reserved bits, which the code never sets.
pub record LargeEntry : Type 0 where
  pub present : ℕ
  pub read_write : ℕ
  pub user_supervisor : ℕ
  pub write_through : ℕ
  pub cache_disabled : ℕ
  pub accessed : ℕ
  pub dirty : ℕ
  pub page_size : ℕ
  pub global : ℕ
  pub available : ℕ
  pub pat : ℕ
  pub base_addr : ℕ

-- `pde`: the member of the union that was assigned last. Every assignment in the code sets all
-- the fields of its member.
pub data Pde : Type 0 where
  kb : TableEntry → Pde
  mb : LargeEntry → Pde

-- Where the linker has put the three arrays.
pub record Layout : Type 0 where
  pub page_table_shell : ℕ
  pub page_table_video : ℕ
  pub page_directories : ℕ

-- The arrays, and the control registers. A directory goes by its index in `page_directories`.
pub record Paging : Type 0 where
  pub page_table_shell : ℕ → PageEntry
  pub page_table_video : ℕ → PageEntry
  pub page_directories : ℕ → ℕ → Pde
  pub page_dir_address : ℕ
  pub cr0 : ℕ
  pub cr3 : ℕ
  pub cr4 : ℕ

abbrev pub max_num_of_processes : ℕ
max_num_of_processes = 6

abbrev pub page_table_size : ℕ
page_table_size = 1024

abbrev pub page_directory_size : ℕ
page_directory_size = 1024

abbrev pub program_img : ℕ
program_img = 32

abbrev pub video_mem : ℕ
video_mem = 33

-- `(i == 184) ? 1 : 0`, and so on.
abbrev flag_at : ℕ → ℕ → ℕ
flag_at i n = if i == n then 1 else 0

-- The entry that both functions give to index `i` of `page_table_shell`: only the text page.
unfoldable pub shell_entry : ℕ → PageEntry
shell_entry i = record {
  present = flag_at i 184;
  read_write = flag_at i 184;
  user_supervisor = flag_at i 184;
  write_through = 0;
  cache_disabled = 0;
  accessed = 0;
  dirty = 0;
  pat = 0;
  global = 0;
  available = 0;
  base_addr = i;
}

-- `for (; i < n; i++) a[i] = f(i)`, with `r` rounds left.
unfoldable pub fill_loop {ℓ} : {A : Type ℓ} → ℕ → ℕ → (ℕ → A) → (ℕ → A) → ℕ → A
fill_loop zero i f a = a
fill_loop (suc r) i f a = fill_loop r (i + 1) f (update a i (f i))

-- The directory entry of a 4 KB page table at an address.
unfoldable pub table_entry : ℕ → Pde
table_entry addr = kb (record {
  present = 1;
  read_write = 1;
  user_supervisor = 1;
  write_through = 0;
  cache_disabled = 0;
  accessed = 0;
  reserved = 0;
  page_size = 0;
  global_page = 0;
  available = 0;
  base_addr = addr / 4096;
})

-- Entry `i` of the first directory, from 1 on: the kernel's page at 1, nothing else.
unfoldable pub first_entry : ℕ → Pde
first_entry i = mb (record {
  present = flag_at i 1;
  read_write = flag_at i 1;
  user_supervisor = 0;
  write_through = 0;
  cache_disabled = 0;
  accessed = 0;
  dirty = 0;
  page_size = flag_at i 1;
  global = flag_at i 1;
  available = 0;
  pat = 0;
  base_addr = i;
})

-- The kernel's page in the directory of a process.
unfoldable pub kernel_entry : Pde
kernel_entry = mb (record {
  present = 1;
  read_write = 1;
  user_supervisor = 0;
  write_through = 0;
  cache_disabled = 0;
  accessed = 0;
  dirty = 0;
  page_size = 1;
  global = 1;
  available = 0;
  pat = 0;
  base_addr = 1;
})

-- An entry of a process's directory that maps nothing.
unfoldable pub absent_entry : Pde
absent_entry = mb (record {
  present = 0;
  read_write = 0;
  user_supervisor = 0;
  write_through = 0;
  cache_disabled = 0;
  accessed = 0;
  dirty = 0;
  page_size = 1;
  global = 0;
  available = 0;
  pat = 0;
  base_addr = 0;
})

-- The page of the program of process number `process`.
unfoldable pub program_entry : ℕ → Pde
program_entry process = mb (record {
  present = 1;
  read_write = 1;
  user_supervisor = 1;
  write_through = 0;
  cache_disabled = 0;
  accessed = 0;
  dirty = 0;
  page_size = 1;
  global = 0;
  available = 0;
  pat = 0;
  base_addr = process + 1;
})

-- The three assembly statements that both functions end with.
unfoldable pub load_control : Paging → ℕ → Paging
load_control p directory = record p {
  cr3 = bit_and directory 0xFFFFFFE7;
  cr4 = bit_or p.cr4 0x10;
  cr0 = bit_or p.cr0 0x80000000;
}

-- The address of a directory: each has 1024 entries of 4 bytes.
unfoldable pub directory_addr : Layout → ℕ → ℕ
directory_addr l i = l.page_directories + 4096 * i

unfoldable pub init_paging : Layout → Paging → Paging
unfolding load_control
init_paging l p =
    load_control
      (record p {
        page_table_shell = fill_loop page_table_size 0 shell_entry p.page_table_shell;
        page_directories = update p.page_directories 0 (
            fill_loop (page_directory_size - 1) 1 first_entry
              (update (p.page_directories 0) 0 (table_entry l.page_table_shell)));
      })
      (directory_addr l 0)

-- The directory of a process after the assignments of `create_paging`.
unfoldable pub process_directory : Layout → ℕ → (ℕ → Pde) → ℕ → Pde
process_directory l process d =
    update
      (fill_loop (page_directory_size - 2) 2 (λ i. absent_entry)
        (update (update d 0 (table_entry l.page_table_shell)) 1 kernel_entry))
      program_img (program_entry process)

-- `create_paging`. For the number 0, which its test lets through, it writes before the array of
-- directories: `none`. No caller gives it 0.
unfoldable pub create_paging : Layout → Paging → ℕ → Option Paging
unfolding load_control
create_paging l p process =
    if leb 7 process
    then some p
    else if process == 0
    then none
    else some (
        load_control
          (record p {
            page_table_shell = fill_loop page_table_size 0 shell_entry p.page_table_shell;
            page_directories =
                update p.page_directories (process - 1)
                  (process_directory l process (p.page_directories (process - 1)));
            page_dir_address = directory_addr l (process - 1);
          })
          (directory_addr l (process - 1)))
