-- ===== src/Boot/Started.antt =====
-- What the entry of student-distrib/kernel.c hands to the first program.
use project_my_os.Base.{ℕ, ◌≡◌, Option, some, codes, ◌>>=◌, ◌<◌, Bytes}
use project_my_os.Str.{bytes_of}
use project_my_os.Screen.{Screen}
use project_my_os.SystemCall.Process.{enters_user, execute}
use project_my_os.SystemCall.Population.{IsPopulated}
use project_my_os.SystemCall.Running.{IsRunningSystem}
use project_my_os.Boot.{multiboot_info}
use project_my_os.Boot.Entry.{
  Machine, Platform, Entered, gives_up, goes_on, load_segments, init_all, set_screen,
}

-- If the outcome enters a program, the system runs from its state on.
abbrev pub StartsRunning : Entered → Type 0
StartsRunning (gives_up s) = Unit {0}
StartsRunning (goes_on m ctl) =
    (at sp : ℕ) → ctl ≡ enters_user at sp → IsRunningSystem m.kernel × IsPopulated m.kernel

-- The machine that the entry has set up for the first program.
abbrev pub set_up : Platform → (addr : ℕ) → Machine → Screen → Machine
set_up p addr m s =
    init_all p (multiboot_info m.kernel.terminal.fs.ram addr).mods_addr
      (load_segments p (set_screen m s))

-- The address of the first entry of the list of modules, in what the boot loader has left at `addr`.
abbrev pub modules_at : Machine → ℕ → ℕ
modules_at m addr = (multiboot_info m.kernel.terminal.fs.ram addr).mods_addr

-- The first program is the one named by the text that starts with "shell" and a NUL.
abbrev pub ExecutesShell : Platform → Machine → Option Entered → Type 0
ExecutesShell p m o =
    (command : Bytes) × ((i : ℕ) → i < 6 → command i ≡ bytes_of (codes "shell") i)
    × (o ≡ (
        execute p.layout m.kernel p.esp p.ebp p.stack (some command) >>= λ r.
        some (goes_on (record m { kernel = r.0 }) r.1)))
