-- ===== src/SystemCall/Running.antt =====
-- The states of the kernel that the calls of student-distrib/systemcall.c and the interrupts lead
-- to, from the first execute on.
use project_my_os.Base.{
  ℕ, ◌+◌, ◌-◌, ◌%◌, ◌≡◌, refl, ap, Option, none, some, Bytes, from, get_or, ltb, leb, ◌||◌, ◌==◌, ℤ,
  minus_one, arith,
}
use project_my_os.FileSystem.{Dentry}
use project_my_os.Keyboard.{Terminal}
use project_my_os.Keyboard.Handler.{keyboard_interrupt_handler}
use project_my_os.Rtc.{rtc_handler}
use project_my_os.Paging.{Layout}
use project_my_os.SystemCall.{Pcb, Kernel, returns, overruns, or_endless, ◌>>>◌}
use project_my_os.SystemCall.Files.{read, write, open_fd, close}
use project_my_os.SystemCall.Process.{Control, result, enters_user, execute}
use project_my_os.SystemCall.Vidmap.{vidmap}
use project_my_os.SystemCall.Dispatch.{
  Registers, Surroundings, CallName, halt_call, execute_call, read_call, write_call, open_call,
  close_call, getargs_call, vidmap_call, set_handler_call, sigreturn_call, systemcall_jump_table,
  int32, pointer, number_in_table, perform, asm_linkage, store_word,
}
use project_my_os.SystemCall.Ensures.{
  Ensures, EnsuresSome, EnsuresSome-if, EnsuresSome-returned, Ensures-bind, Ensures-returned,
}
use project_my_os.SystemCall.Keeps.{
  Keeps, Keeps-refl, read-Keeps, write-Keeps, open_fd-Keeps, close-Keeps,
}
use project_my_os.SystemCall.Population.{
  Started, Executed, failed, started, HasExecuted, execute-Executed, Halted, halt-Halted,
  IsPopulated, Keeps-IsPopulated, Started-IsPopulated, Halted-IsPopulated,
}

-- The states of a running system: after the first program has been entered, after a call, after a
-- key and after a tick of the clock. A call that returns -1 is one that has started no process:
-- `execute` counts a process before it loads its file, and does not take it back if that fails.
pub data IsRunningSystem : Kernel → Type 0 where
  booted :
      (l : Layout) (esp ebp at sp : ℕ) (stack : Bytes) (command : Option Bytes) (k : Kernel)
      {k' : Kernel}
      → k.counter ≡ 0
      → execute l k esp ebp stack command ≡ some (k', enters_user at sp)
      → IsRunningSystem k'
  called :
      (e : Surroundings) (mem mem' : Bytes) (r : Registers) (ctl : Control) {k k' : Kernel}
      → IsRunningSystem k
      → asm_linkage e mem r k ≡ returns (k', mem', ctl)
      → (ctl ≡ result minus_one → k'.counter ≡ k.counter)
      → IsRunningSystem k'
  key :
      (inb : ℕ) (stack_buf : Bytes) (stack : Dentry) (t : Terminal) {k : Kernel}
      → IsRunningSystem k
      → keyboard_interrupt_handler k.terminal inb stack_buf stack ≡ some t
      → IsRunningSystem (record k { terminal = t })
  tick :
      {k : Kernel} → IsRunningSystem k → IsRunningSystem (record k { rtc = (rtc_handler k.rtc).0 })

-- What a call has done to the processes.
data Changed (k k' : Kernel) (ctl : Control) : Type 0 where
  kept : Keeps k k' → Changed k k' ctl
  by_execute : Executed k k' ctl → Changed k k' ctl
  by_halt : Halted k k' → Changed k k' ctl

abbrev HasChanged : Kernel → Kernel × Bytes × Control → Type 0
HasChanged k r = Changed k r.0 r.2

same : (k k' : Kernel) (ctl : Control) → Keeps k k' → Changed k k' ctl
same k k' ctl f = kept f

perform_execute :
    (k : Kernel) (mem : Bytes) (m : Option (Kernel × Control))
    → EnsuresSome (HasExecuted k) m
    → Ensures (HasChanged k) (or_endless m >>> λ done. returns (done.0, mem, done.1))
perform_execute k mem none h = tt
perform_execute k mem (some done) h = by_execute h

abbrev VidmapKeeps : Kernel → Kernel × ℤ × Option ℕ → Type 0
VidmapKeeps k r = Keeps k r.0

vidmap-Keeps : (l : Layout) (k : Kernel) (p : ℕ) → EnsuresSome (VidmapKeeps k) (vidmap l k p)
unfolding vidmap
vidmap-Keeps l k p =
    EnsuresSome-if _ (ltb p 0x08000000 || leb 0x08400000 p) _ _ (λ refused. Keeps-refl k)
      (λ inside.
        EnsuresSome-if _ (k.counter == 0) _ _ (λ nobody. tt)
          (λ somebody. record { counter = refl; numbers = λ a. refl }))

perform_vidmap :
    (k : Kernel) (mem : Bytes) (p : ℕ) (m : Option (Kernel × ℤ × Option ℕ))
    → EnsuresSome (VidmapKeeps k) m
    → Ensures {A = Kernel × Bytes × Control} (HasChanged k) (elim m [
      | none ↦ overruns
      | some (k', ret, screen) ↦ returns (k', store_word mem p screen, result ret)
    ])
perform_vidmap k mem p none h = tt
perform_vidmap k mem p (some (k', ret, screen)) h = same k k' (result ret) h

perform-Changed :
    (e : Surroundings) (mem : Bytes) (r : Registers) (k : Kernel) (name : CallName)
    → Ensures (HasChanged k) (perform e mem r k name)
unfolding perform
perform-Changed e mem r k halt_call = by_halt (halt-Halted e.layout k (r.ebx % 256))
perform-Changed e mem r k execute_call =
    perform_execute k mem (execute e.layout k e.esp e.ebp e.stack (pointer mem r.ebx))
      (execute-Executed e.layout k e.esp e.ebp e.stack (pointer mem r.ebx))
perform-Changed e mem r k read_call =
    Ensures-bind _ _ (read k (int32 r.ebx) (pointer mem r.ecx) (int32 r.edx) e.events) _
      (read-Keeps k (int32 r.ebx) (pointer mem r.ecx) (int32 r.edx) e.events)
      (λ done f. same k done.0 _ f)
perform-Changed e mem r k write_call =
    Ensures-bind _ _ (write k (int32 r.ebx) (pointer mem r.ecx) (int32 r.edx) e.prev) _
      (write-Keeps k (int32 r.ebx) (pointer mem r.ecx) (int32 r.edx) e.prev)
      (λ done f. same k done.0 _ f)
perform-Changed e mem r k open_call =
    Ensures-bind _ _ (open_fd k (from mem r.ebx)) _ (open_fd-Keeps k (from mem r.ebx))
      (λ done f. same k done.0 _ f)
perform-Changed e mem r k close_call =
    Ensures-bind _ _ (close k (int32 r.ebx)) _ (close-Keeps k (int32 r.ebx))
      (λ done f. same k done.0 _ f)
perform-Changed e mem r k getargs_call = same k k _ (Keeps-refl k)
perform-Changed e mem r k vidmap_call =
    perform_vidmap k mem r.ebx (vidmap e.layout k r.ebx) (vidmap-Keeps e.layout k r.ebx)
perform-Changed e mem r k set_handler_call = same k k _ (Keeps-refl k)
perform-Changed e mem r k sigreturn_call = same k k _ (Keeps-refl k)

chosen_call :
    (e : Surroundings) (mem : Bytes) (r : Registers) (k : Kernel) (n : Option ℕ)
    → Ensures {A = Kernel × Bytes × Control} (HasChanged k) (elim n [
      | none ↦ returns (k, mem, result minus_one)
      | some i ↦ perform e mem r k (get_or systemcall_jump_table (i - 1) sigreturn_call)
    ])
chosen_call e mem r k none = same k k (result minus_one) (Keeps-refl k)
chosen_call e mem r k (some i) =
    perform-Changed e mem r k (get_or systemcall_jump_table (i - 1) sigreturn_call)

asm_linkage-Changed :
    (e : Surroundings) (mem : Bytes) (r : Registers) (k : Kernel)
    → Ensures (HasChanged k) (asm_linkage e mem r k)
unfolding asm_linkage
asm_linkage-Changed e mem r k = chosen_call e mem r k (number_in_table r.eax)

-- The first process has the number 1 and is alone.
first-IsPopulated : (k k' : Kernel) → k.counter ≡ 0 → Started k k' → IsPopulated k'
first-IsPopulated k k' none_yet s = record {
  some_process = omega (arith, s.counter);
  at_most = omega (arith, s.counter);
  numbers = λ c low high. let e : c ≡ k.counter + 1 = omega (arith, s.counter) in rw e s.own;
}

-- An `execute` that enters user code has not failed.
entered :
    (k k' : Kernel) (at sp : ℕ) → k.counter ≡ 0 → Executed k k' (enters_user at sp) → IsPopulated k'
entered k k' at sp none_yet (failed e blocks) = absurd (cc e)
entered k k' at sp none_yet (started s) = first-IsPopulated k k' none_yet s

Changed-IsPopulated :
    (k k' : Kernel) (ctl : Control)
    → Changed k k' ctl
    → (ctl ≡ result minus_one → k'.counter ≡ k.counter)
    → IsPopulated k
    → IsPopulated k'
Changed-IsPopulated k k' ctl (by_halt h) no_loss v = Halted-IsPopulated k k' h v
Changed-IsPopulated k k' ctl (kept f) no_loss v = Keeps-IsPopulated k k' f v
Changed-IsPopulated k k' ctl (by_execute (started s)) no_loss v = Started-IsPopulated k k' s v
Changed-IsPopulated k k' ctl (by_execute (failed e blocks)) no_loss v =
    Keeps-IsPopulated k k'
      (record { counter = no_loss e; numbers = λ a. ap (λ (f : ℕ → Pcb). (f a).pid) blocks }) v

-- In every state of a running system there are from 1 to 6 processes, the control block of each
-- holds its number, and so the running process has the highest number. The states are those that
-- any calls through asm_linkage, key presses and clock ticks lead to from the first execute that
-- enters a program, if no call that returns -1 has changed the count of processes.
pub IsRunningSystem-IsPopulated : {k : Kernel} → IsRunningSystem k → IsPopulated k
IsRunningSystem-IsPopulated (booted l esp ebp at sp stack command k none_yet e) =
    entered k _ at sp none_yet
      (EnsuresSome-returned (HasExecuted k) _ _ (execute-Executed l k esp ebp stack command) e)
IsRunningSystem-IsPopulated (called e mem mem' r ctl {k = k} {k' = k'} run done no_loss) =
    Changed-IsPopulated k k' ctl
      (Ensures-returned (HasChanged k) _ _ (asm_linkage-Changed e mem r k) done) no_loss
      (IsRunningSystem-IsPopulated run)
IsRunningSystem-IsPopulated (key inb stack_buf stack t {k = k} run e) =
    Keeps-IsPopulated k _ (record { counter = refl; numbers = λ a. refl })
      (IsRunningSystem-IsPopulated run)
IsRunningSystem-IsPopulated (tick {k = k} run) =
    Keeps-IsPopulated k _ (record { counter = refl; numbers = λ a. refl })
      (IsRunningSystem-IsPopulated run)
