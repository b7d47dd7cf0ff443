-- ===== src/Boot/Entry.antt =====
-- `entry` of student-distrib/kernel.c: checks and messages, the descriptors, the initialisers in
-- their order, and the first program.
use project_my_os.Base.{
  ℕ, ltb, ◌-◌, ◌+◌, Bool, true, not, ◌&&◌, Option, some, [], ◌∷◌, ◌++◌, ◌==◌, if◌then◌else◌, ◌>>=◌,
  Bytes, read32, codes,
}
use project_my_os.Str.{bytes_of}
use project_my_os.Screen.{Screen, clear, clear_screen}
use project_my_os.Printf.{word}
use project_my_os.Pic.{i8259_init}
use project_my_os.Rtc.{rtc_init}
use project_my_os.FileSystem.{filesystem_init}
use project_my_os.Keyboard.{Terminal, keyboard_init}
use project_my_os.Paging.{Layout, init_paging}
use project_my_os.SystemCall.{Kernel}
use project_my_os.SystemCall.Process.{Control, execute}
use project_my_os.Boot.{
  multiboot_info, bootloader_magic, check_flag, say, print_first, print_second,
}
use project_my_os.Boot.Segments.{SegDesc, set_params, the_ldt_desc, the_tss_desc}

-- The machine at the start: the kernel's variables and memory, the descriptors, the fields of the
-- task state segment that the entry sets besides `esp0`, and whether interrupts are on.
pub record Machine : Type 0 where
  pub kernel : Kernel
  pub ldt_desc : SegDesc
  pub tss_desc : SegDesc
  pub tss_ss0 : ℕ
  pub tss_ldt : ℕ
  pub interrupts : Bool

-- What the linker and the hardware give: where the tables stand and how long they are, the bytes
-- read from registers B and A of the clock, the stack, and the memory behind the text "shell".
pub record Platform : Type 0 where
  pub layout : Layout
  pub ldt : ℕ
  pub ldt_size : ℕ
  pub tss : ℕ
  pub tss_size : ℕ
  pub prev_b : ℕ
  pub prev_a : ℕ
  pub esp : ℕ
  pub ebp : ℕ
  pub stack : Bytes
  pub behind : Bytes

-- The entry gives up and returns to the boot code, or goes on to the first program; a program that
-- cannot be entered leaves the machine idle.
pub data Entered : Type 0 where
  gives_up : Screen → Entered
  goes_on : Machine → Control → Entered

-- The two blocks that build descriptors.
unfoldable pub load_segments : Platform → Machine → Machine
unfolding set_params the_ldt_desc the_tss_desc
load_segments p m = record m {
  ldt_desc = set_params the_ldt_desc p.ldt p.ldt_size;
  tss_desc = set_params the_tss_desc p.tss p.tss_size;
  tss_ldt = 0x0038;
  tss_ss0 = 0x0018;
  kernel = record m.kernel { esp0 = 0x800000 };
}

-- `i8259_init(); filesystem_init(…); rtc_init();` on the terminal's parts.
unfoldable pub init_devices : Platform → (mods_addr : ℕ) → Terminal → Terminal
init_devices p mods_addr t =
    let fs = filesystem_init t.fs (read32 t.fs.ram mods_addr) (read32 t.fs.ram (mods_addr + 4)) in
    let clock = rtc_init t.pic p.prev_b p.prev_a in
    record t { fs = fs.0; pic = clock.0; out = t.out ++ (i8259_init ++ clock.1) }

-- From `i8259_init` to `keyboard_init`.
unfoldable pub init_all : Platform → (mods_addr : ℕ) → Machine → Machine
unfolding init_devices
init_all p mods_addr m =
    let k = m.kernel in
    let t = init_devices p mods_addr k.terminal in
    record m {
      interrupts = true;
      kernel = record k {
        paging = init_paging p.layout k.paging;
        terminal = keyboard_init (record t { screen = clear_screen t.screen });
      };
    }

-- The text "shell" where the linker has put it, with what follows it: there is no blank behind the
-- name, so `execute` reads on.
unfoldable pub shell_command : Platform → Bytes
shell_command p i = if ltb i 6 then bytes_of (codes "shell") i else p.behind (i - 6)

-- The first program.
unfoldable pub start_shell : Platform → Machine → Option Entered
unfolding shell_command
start_shell p m = execute p.layout m.kernel p.esp p.ebp p.stack (some (shell_command p)) >>= λ r.
    some (goes_on (record m { kernel = r.0 }) r.1)

abbrev pub set_screen : Machine → Screen → Machine
set_screen m s = record m {
  kernel = record m.kernel { terminal = record m.kernel.terminal { screen = s } };
}

unfoldable pub entry : Platform → (magic addr : ℕ) → Machine → Option Entered
unfolding load_segments init_all start_shell
entry p magic addr m =
    let ram = m.kernel.terminal.fs.ram in
    let s = clear m.kernel.terminal.screen in
    let mbi = multiboot_info ram addr in
    if not (magic == bootloader_magic)
    then (say s (codes "Invalid magic number: 0x%#x\n") (word magic ∷ []) >>= λ t.
        some (gives_up t))
    else (print_first ram mbi s >>= λ s1.
        if check_flag mbi.flags 4 && check_flag mbi.flags 5
        then (say s1 (codes "Both bits 4 and 5 are set.\n") [] >>= λ t. some (gives_up t))
        else (print_second ram mbi s1 >>= λ s2.
            start_shell p (init_all p mbi.mods_addr (load_segments p (set_screen m s2)))))
