-- ===== src/SystemCall/Dispatch.antt =====
-- The entry of the system calls, asm_linkage of student-distrib/handler.S: the number in %eax picks
-- the call, the three argument registers are pushed, and the results come back in %eax and memory.
use project_my_os.Base.{
  ℕ, ◌-◌, ◌/◌, ◌%◌, ◌^◌, Option, none, some, List, [], ◌∷◌, ◌||◌, not, ◌&&◌, ltb, ◌==◌,
  if◌then◌else◌, Bytes, from, get_or, length, slice_of, ℤ, pos, negsuc, minus_one,
}
use project_my_os.Rtc.{Event}
use project_my_os.Paging.{Layout}
use project_my_os.SystemCall.{Kernel, Outcome, returns, overruns, or_endless, ◌>>>◌}
use project_my_os.SystemCall.Files.{read, write, open_fd, close}
use project_my_os.SystemCall.Process.{Control, result, execute, halt, getargs}
use project_my_os.SystemCall.Vidmap.{vidmap, set_handler, sigreturn}

-- The registers of a call. `%eax` is compared as a signed number.
pub record Registers : Type 0 where
  pub eax : ℤ
  pub ebx : ℕ
  pub ecx : ℕ
  pub edx : ℕ

-- What a call meets besides: where the page tables stand, the kernel's stack and frame pointer, what
-- its stack holds, register A of the clock, and the events that come while it waits.
pub record Surroundings : Type 0 where
  pub layout : Layout
  pub esp : ℕ
  pub ebp : ℕ
  pub stack : Bytes
  pub prev : ℕ
  pub events : List Event

-- `systemcall_jump_table` from entry 1 on.
pub data CallName : Type 0 where
  halt_call execute_call read_call write_call open_call close_call : CallName
  getargs_call vidmap_call set_handler_call sigreturn_call : CallName

abbrev pub systemcall_jump_table : List CallName
systemcall_jump_table =
    halt_call ∷ execute_call ∷ read_call ∷ write_call ∷ open_call ∷ close_call ∷ getargs_call
    ∷ vidmap_call ∷ set_handler_call ∷ sigreturn_call ∷ []

-- The number of a call, if it is one of 1 to 10.
unfoldable pub number_in_table : ℤ → Option ℕ
number_in_table (negsuc n) = none
number_in_table (pos n) = if ltb n 1 || ltb 10 n then none else some n

-- A register read as `int32_t`.
unfoldable pub int32 : ℕ → ℤ
int32 w = if ltb w (2 ^ 31) then pos w else negsuc (2 ^ 32 - w - 1)

-- A register read as a pointer: `none` is NULL.
unfoldable pub pointer : Bytes → ℕ → Option Bytes
pointer mem p = if p == 0 then none else some (from mem p)

-- Memory after a call that stored these bytes from `p` on.
unfoldable pub stored : Bytes → ℕ → List ℕ → Bytes
stored mem p l a = if not (ltb a p) && ltb (a - p) (length l) then get_or l (a - p) 0 else mem a

-- The bytes of a word in memory.
abbrev word_bytes : ℕ → List ℕ
word_bytes w = w % 256 ∷ w / 256 % 256 ∷ w / 65536 % 256 ∷ w / 16777216 % 256 ∷ []

unfoldable pub store_word : Bytes → ℕ → Option ℕ → Bytes
unfolding stored
store_word mem p none = mem
store_word mem p (some w) = stored mem p (word_bytes w)

unfoldable pub store_buf : Bytes → ℕ → ℕ → Option Bytes → Bytes
unfolding stored
store_buf mem p n none = mem
store_buf mem p n (some buf) = stored mem p (slice_of buf 0 n)

-- `call *systemcall_jump_table(,%eax,4)`: the kernel, memory, and where control goes.
-- Memory is the program's, apart from the kernel's variables. `endless` stands for an `execute` that
-- never returns and for one whose arguments overrun their buffer.
unfoldable pub perform :
    Surroundings → Bytes → Registers → Kernel → CallName → Outcome (Kernel × Bytes × Control)
unfolding int32 pointer stored store_word store_buf
perform e mem r k halt_call =
    let done = halt e.layout k (r.ebx % 256) in returns (done.0, mem, done.1)
perform e mem r k execute_call =
    or_endless (execute e.layout k e.esp e.ebp e.stack (pointer mem r.ebx)) >>> λ done.
    returns (done.0, mem, done.1)
perform e mem r k read_call =
    read k (int32 r.ebx) (pointer mem r.ecx) (int32 r.edx) e.events >>> λ done.
    returns (done.0, stored mem r.ecx done.2, result done.1)
perform e mem r k write_call =
    write k (int32 r.ebx) (pointer mem r.ecx) (int32 r.edx) e.prev >>> λ done.
    returns (done.0, mem, result done.1)
perform e mem r k open_call =
    open_fd k (from mem r.ebx) >>> λ done. returns (done.0, mem, result done.1)
perform e mem r k close_call =
    close k (int32 r.ebx) >>> λ done. returns (done.0, mem, result done.1)
perform e mem r k getargs_call =
    let done = getargs k (pointer mem r.ebx) (int32 r.ecx) in
    returns (k, store_buf mem r.ebx r.ecx done.1, result done.0)
perform e mem r k vidmap_call = elim (vidmap e.layout k r.ebx) [
  | none ↦ overruns
  | some (k', ret, screen) ↦ returns (k', store_word mem r.ebx screen, result ret)
]
perform e mem r k set_handler_call = returns (k, mem, result set_handler)
perform e mem r k sigreturn_call = returns (k, mem, result sigreturn)

-- `asm_linkage`
unfoldable pub asm_linkage :
    Surroundings → Bytes → Registers → Kernel → Outcome (Kernel × Bytes × Control)
unfolding number_in_table perform
asm_linkage e mem r k = elim (number_in_table r.eax) [
  | none ↦ returns (k, mem, result minus_one)
  | some n ↦ perform e mem r k (get_or systemcall_jump_table (n - 1) sigreturn_call)
]
