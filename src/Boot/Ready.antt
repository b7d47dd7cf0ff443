-- ===== src/Boot/Ready.antt =====
-- The machine that `entry` of student-distrib/kernel.c has set up when it comes to the first program.
use project_my_os.Base.{
  ℕ, ◌+◌, ◌*◌, ◌%◌, ◌^◌, ◌<◌, ◌≡◌, ◌≢◌, refl, ap, ◌∙◌, List, ◌∷◌, ◌++◌, ◌==◌, ◌||◌, if◌then◌else◌,
  read32, Bool-cases, inl, inr, true, false, bit_and, bit_or, update_lem, update, ne→==, arith,
}
use mathlib.Core.List.{append_assoc}
use project_my_os.Screen.{Screen, clear_screen, init_screen_x_and_y}
use project_my_os.Screen.Video.{clear_lem}
use project_my_os.Pic.{Pic, i8259_init, enable_irq}
use project_my_os.Pic.Masks.{IsPic, masked, enable_irq_lem, irq_ports}
use project_my_os.Rtc.{rtc_init, set_rate}
use project_my_os.FileSystem.{FileSystem, filesystem_init}
use project_my_os.Keyboard.{Terminal, keyboard_init, move_cursor}
use project_my_os.Paging.{
  Layout, Paging, Pde, kb, mb, init_paging, load_control, first_entry, shell_entry, table_entry,
  directory_addr,
}
use project_my_os.Paging.Loops.{fill_loop_lem}
use project_my_os.SystemCall.Vidmap.{user_table}
use project_my_os.Boot.Segments.{the_ldt_desc, the_tss_desc, seg_base, seg_limit, set_params_lem}
use project_my_os.Boot.Entry.{Machine, Platform, load_segments, init_devices, init_all}

-- Whether a directory entry is present.
abbrev pub is_present : Pde → ℕ
is_present (kb e) = e.present
is_present (mb e) = e.present

-- Paging is on, with the first directory: the text page in the first 4 MB, the kernel's 4 MB page, and
-- nothing else.
pub record IsPaged (l : Layout) (before q : Paging) : Type 0 where
  pub low : q.page_directories 0 0 ≡ user_table l.page_table_shell
  pub kernel :
      q.page_directories 0 1
      ≡ mb (record {
        present = 1;
        read_write = 1;
        user_supervisor = 0;
        write_through = 0;
        cache_disabled = 0;
        accessed = 0;
        dirty = 0;
        page_size = 1;
        global = 1;
        available = 0;
        pat = 0;
        base_addr = 1;
      })
  pub absent : (i : ℕ) → 1 < i → i < 1024 → is_present (q.page_directories 0 i) ≡ 0
  pub text_page : (i : ℕ) → i < 1024 → (q.page_table_shell i).present ≡ (if i == 184 then 1 else 0)
  pub text_frame : (q.page_table_shell 184).base_addr * 4096 ≡ 0xB8000
  pub directory : q.cr3 ≡ bit_and l.page_directories 0xFFFFFFE7
  pub on : q.cr0 ≡ bit_or before.cr0 0x80000000
  pub large_pages : q.cr4 ≡ bit_or before.cr4 0x10

directory_entry :
    (l : Layout) (before : Paging) (i : ℕ)
    → i < 1024
    → (init_paging l before).page_directories 0 i
      ≡ (if i == 0 then table_entry l.page_table_shell else first_entry i)
unfolding init_paging load_control update
directory_entry l before i h = ground (
  arith,
  fill_loop_lem 1023 1 first_entry
      (update (before.page_directories 0) 0 (table_entry l.page_table_shell)) i,
  update_lem (before.page_directories 0) 0 (table_entry l.page_table_shell) i,
)

table_entry_at :
    (l : Layout) (before : Paging) (i : ℕ)
    → i < 1024
    → (init_paging l before).page_table_shell i ≡ shell_entry i
unfolding init_paging load_control
table_entry_at l before i h =
    ground (arith, fill_loop_lem 1024 0 shell_entry before.page_table_shell i)

first_entry-absent : (i : ℕ) → 1 < i → is_present (first_entry i) ≡ 0
unfolding first_entry
first_entry-absent i h = ground arith

init_paging-IsPaged : (l : Layout) (before : Paging) → IsPaged l before (init_paging l before)
unfolding init_paging load_control first_entry shell_entry table_entry directory_addr
init_paging-IsPaged l before = record {
  low = directory_entry l before 0 (omega arith);
  kernel = directory_entry l before 1 (omega arith);
  absent = λ i a b.
      let other : (i == 0) ≡ false = ne→== i 0 (omega arith) in
      ap is_present (directory_entry l before i b) ∙ rw other (first_entry-absent i a);
  text_page = λ i h. ap (λ e. e.present) (table_entry_at l before i h);
  text_frame = ap (λ e. e.base_addr * 4096) (table_entry_at l before 184 (omega arith));
  directory =
      let e : l.page_directories + 4096 * 0 ≡ l.page_directories = omega arith in
      ap (λ d. bit_and d 0xFFFFFFE7) e;
  on = refl;
  large_pages = refl;
}

-- The file system of the boot module at `start`: its counters, and where its entries, its inodes and
-- its blocks are.
pub record IsImage (fs : FileSystem) (start : ℕ) : Type 0 where
  pub dentries_num : fs.my_boot_block.dentries_num ≡ read32 fs.ram start
  pub inodes_num : fs.my_boot_block.inodes_num ≡ read32 fs.ram (start + 4)
  pub datablocks_num : fs.my_boot_block.datablocks_num ≡ read32 fs.ram (start + 8)
  pub entries : fs.dentries ≡ (start + 64) % 2 ^ 32
  pub inodes : fs.inodes ≡ (start + 4096) % 2 ^ 32
  pub blocks : fs.file_addr.st_data ≡ (start + (read32 fs.ram (start + 4) + 1) * 4096) % 2 ^ 32
  pub first : fs.entry_counter ≡ 0

filesystem_init-IsImage :
    (fs : FileSystem) (start end : ℕ) → start ≢ end → IsImage (filesystem_init fs start end).0 start
unfolding filesystem_init
filesystem_init-IsImage fs start end h =
    let e : (start == end) ≡ false = ne→== start end h in
    rw e (record {
      dentries_num = refl;
      inodes_num = refl;
      datablocks_num = refl;
      entries = refl;
      inodes = refl;
      blocks = refl;
      first = refl;
    })

filesystem_init-ram :
    (fs : FileSystem) (start end : ℕ) → (filesystem_init fs start end).0.ram ≡ fs.ram
unfolding filesystem_init
filesystem_init-ram fs start end = elim (Bool-cases (start == end)) [
  | inl same ↦ rw same refl
  | inr other ↦ rw other refl
]

-- Lines 1, 2 and 8, the keyboard's, the slave's and the clock's, are open; the others as before.
abbrev pub AreOpen : Pic → Pic → Type 0
AreOpen before pic =
    (j : ℕ) → j < 16 → masked pic j ≡ (if j == 1 || j == 2 || j == 8 then 0 else masked before j)

three_lines :
    (before : Pic)
    → IsPic before
    → AreOpen before (enable_irq (enable_irq (enable_irq before 2).0 8).0 1).0
three_lines before v j h =
    let a = (irq_ports before 2 v).0 in
    let b = (irq_ports (enable_irq before 2).0 8 a).0 in
    ground (
      arith,
      enable_irq_lem (enable_irq (enable_irq before 2).0 8).0 1 j b (omega arith) h,
      enable_irq_lem (enable_irq before 2).0 8 j a (omega arith) h,
      enable_irq_lem before 2 j v (omega arith) h,
    )

-- The first bytes that have been sent to the ports since: the two controllers' command words, the
-- periodic interrupt in register B of the clock and the slowest rate in register A. What follows are
-- masks and the cursor.
pub record HasStarted (p : Platform) (before after : List (ℕ × ℕ)) : Type 0 where
  pub later : List (ℕ × ℕ)
  pub sent :
      after
      ≡ before
        ++ ((0x20, 0x11)
            ∷ (0x21, 0x20)
            ∷ (0x21, 0x04)
            ∷ (0x21, 0x01)
            ∷ (0xA0, 0x11)
            ∷ (0xA1, 0x28)
            ∷ (0xA1, 0x02)
            ∷ (0xA1, 0x01)
            ∷ (0x70, 0x8B)
            ∷ (0x70, 0x8B)
            ∷ (0x71, bit_or p.prev_b 0x40)
            ∷ (0x70, 0x8A)
            ∷ (0x70, 0x8A)
            ∷ (0x71, bit_or (bit_and p.prev_a 0xF0) 0x0F)
            ∷ later)

-- The terminal: an empty page with the cursor at its beginning, nothing typed and nothing to read.
pub record IsEmpty (t : Terminal) : Type 0 where
  pub column : t.screen.screen_x ≡ 0
  pub row : t.screen.screen_y ≡ 0
  pub page : (c : ℕ) → c < 2000 → t.screen.video (2 * c) ≡ b' '
  pub nothing_typed : t.keys.buffer_content_counter ≡ 0
  pub nothing_to_read : t.keys.readable_flag ≡ 0

-- The machine `m'` that the entry has made of `m`, for the boot module at `start`.
pub record IsReady (p : Platform) (start : ℕ) (m m' : Machine) : Type 0 where
  pub none_yet : m'.kernel.counter ≡ 0
  pub interrupts : m'.interrupts ≡ true
  pub tss_base : seg_base m'.tss_desc ≡ p.tss
  pub tss_limit : seg_limit m'.tss_desc ≡ p.tss_size
  pub ldt_base : seg_base m'.ldt_desc ≡ p.ldt
  pub ldt_limit : seg_limit m'.ldt_desc ≡ p.ldt_size
  pub stack : m'.kernel.esp0 ≡ 0x800000
  pub stack_segment : m'.tss_ss0 ≡ 0x18
  pub ldt_selector : m'.tss_ldt ≡ 0x38
  pub ports : HasStarted p m.kernel.terminal.out m'.kernel.terminal.out
  pub lines : AreOpen m.kernel.terminal.pic m'.kernel.terminal.pic
  pub ram : m'.kernel.terminal.fs.ram ≡ m.kernel.terminal.fs.ram
  pub image : IsImage m'.kernel.terminal.fs start
  pub paging : IsPaged p.layout m.kernel.paging m'.kernel.paging
  pub terminal : IsEmpty m'.kernel.terminal

init_devices-HasStarted :
    (p : Platform) (mods_addr : ℕ) (t : Terminal) (s : Screen)
    → HasStarted p t.out (keyboard_init (record (init_devices p mods_addr t) { screen = s })).out
unfolding keyboard_init move_cursor init_devices i8259_init rtc_init set_rate
init_devices-HasStarted p mods_addr t s = record {
  later = _;
  sent = append_assoc (t.out ++ _) _ _ ∙ append_assoc t.out _ _;
}

cleared-IsEmpty :
    (t : Terminal) → IsEmpty (keyboard_init (record t { screen = clear_screen t.screen }))
unfolding keyboard_init move_cursor clear_screen init_screen_x_and_y
cleared-IsEmpty t = record {
  column = refl;
  row = refl;
  page = λ c h. ground (arith, clear_lem (record t.screen { screen_x = 0; screen_y = 0 }) (2 * c));
  nothing_typed = refl;
  nothing_to_read = refl;
}

pub init_all-IsReady :
    (p : Platform) (mods_addr : ℕ) (m : Machine)
    → m.kernel.counter ≡ 0
    → IsPic m.kernel.terminal.pic
    → read32 m.kernel.terminal.fs.ram mods_addr ≢ read32 m.kernel.terminal.fs.ram (mods_addr + 4)
    → p.tss < 2 ^ 32
    → p.tss_size < 2 ^ 20
    → p.ldt < 2 ^ 32
    → p.ldt_size < 2 ^ 20
    → IsReady p
        (read32 m.kernel.terminal.fs.ram mods_addr)
        m
        (init_all p mods_addr (load_segments p m))
unfolding init_all load_segments init_devices keyboard_init move_cursor rtc_init
init_all-IsReady p mods_addr m none_yet pic module_there tss tss_size ldt ldt_size =
    let t : Terminal = m.kernel.terminal in
    let start : ℕ = read32 t.fs.ram mods_addr in
    let end : ℕ = read32 t.fs.ram (mods_addr + 4) in
    record {
      none_yet = none_yet;
      interrupts = refl;
      tss_base = (set_params_lem the_tss_desc p.tss p.tss_size tss tss_size).0;
      tss_limit = (set_params_lem the_tss_desc p.tss p.tss_size tss tss_size).1;
      ldt_base = (set_params_lem the_ldt_desc p.ldt p.ldt_size ldt ldt_size).0;
      ldt_limit = (set_params_lem the_ldt_desc p.ldt p.ldt_size ldt ldt_size).1;
      stack = refl;
      stack_segment = refl;
      ldt_selector = refl;
      ports = init_devices-HasStarted p mods_addr t _;
      lines = three_lines t.pic pic;
      ram = filesystem_init-ram t.fs start end;
      image = filesystem_init-IsImage t.fs start end module_there;
      paging = init_paging-IsPaged p.layout m.kernel.paging;
      terminal = cleared-IsEmpty (init_devices p mods_addr t);
    }
