-- ===== src/SystemCall.antt =====
-- The kernel state of student-distrib/systemcall.c, and the outcomes of a call.
-- A process control block is found by its address, below the bottom of the kernel stack.
pub mod Files
pub mod Process
pub mod Descriptors
pub mod Close
pub mod Position
pub mod Sequence
pub mod Failure
pub mod Arguments
pub mod Command
pub mod Execute
pub mod Start
pub mod Loading
pub mod Halt
pub mod Vidmap
pub mod Dispatch
pub mod Ensures
pub mod Keeps
pub mod Population
pub mod Running
pub mod Linkage
use project_my_os.Base.{ℕ, ◌-◌, ◌*◌, Option, none, some, List, Bytes, update}
use project_my_os.Keyboard.{Terminal}
use project_my_os.Rtc.{Rtc}
use project_my_os.Paging.{Paging}

-- The five tables of operations.
pub data FileOps : Type 0 where
  stdin_t stdout_t rtc_t file_t directory_t : FileOps

-- `file_descriptor`; `none` is the null pointer.
pub record FileDescriptor : Type 0 where
  pub file_operation : Option FileOps
  pub file_name : Bytes
  pub inode : ℕ
  pub fileposition : ℕ
  pub flags : ℕ

-- `pcb_t`, less `status` and `priority`, which no code uses.
pub record Pcb : Type 0 where
  pub pid : ℕ
  pub parent_pid : ℕ
  pub parent_kernel_sp : ℕ
  pub parent_kernel_bp : ℕ
  pub file_array : ℕ → FileDescriptor
  pub arg : Bytes

-- The variables of systemcall.c, the control blocks by address, and the parts that the calls work
-- on. `images` is what stands in the program page of each process, from 0x08048000 on.
pub record Kernel : Type 0 where
  pub counter : ℕ
  pub shell_entry_addr : ℕ
  pub arg_size : ℕ
  pub page_dir_addr : ℕ
  pub esp0 : ℕ
  pub pcbs : ℕ → Pcb
  pub images : ℕ → List ℕ
  pub paging : Paging
  pub terminal : Terminal
  pub rtc : Rtc

abbrev pub bottom_stack : ℕ
bottom_stack = 0x00800000

abbrev pub stack_size : ℕ
stack_size = 0x2000

-- `(pcb_t *)(BOTTOM_STACK - counter*STACK_SIZE)`
abbrev pub pcb_addr : ℕ → ℕ
pcb_addr counter = bottom_stack - counter * stack_size

abbrev pub current : Kernel → Pcb
current k = k.pcbs (pcb_addr k.counter)

-- A call returns, spins until an interrupt comes, calls through a null pointer, runs on in a
-- string with no end, or writes past the descriptor that it works on.
pub data Outcome {ℓ} (A : Type ℓ) : Type ℓ where
  returns : A → Outcome A
  waits : Outcome A
  faults : Outcome A
  endless : Outcome A
  overruns : Outcome A

abbrev pub or_endless {ℓ} : {A : Type ℓ} → Option A → Outcome A
or_endless none = endless
or_endless (some a) = returns a

abbrev pub or_overruns {ℓ} : {A : Type ℓ} → Option A → Outcome A
or_overruns none = overruns
or_overruns (some a) = returns a

abbrev pub or_waits {ℓ} : {A : Type ℓ} → Option A → Outcome A
or_waits none = waits
or_waits (some a) = returns a

infixl 5 ◌>>>◌
abbrev pub ◌>>>◌ {ℓ κ} : {A : Type ℓ} {B : Type κ} → Outcome A → (A → Outcome B) → Outcome B
returns a >>> f = f a
waits >>> f = waits
faults >>> f = faults
endless >>> f = endless
overruns >>> f = overruns

unfoldable pub set_pcb : Kernel → Pcb → Kernel
set_pcb k p = record k { pcbs = update k.pcbs (pcb_addr k.counter) p }
