-- ===== src/SystemCall/Population.antt =====
-- The processes of student-distrib/systemcall.c over any sequence of system calls and interrupts.
use project_my_os.Base.{
  ℕ, ◌+◌, ◌-◌, ◌≤◌, ◌<◌, ◌≡◌, ◌≢◌, refl, sym, ◌∙◌, ap, Option, none, some, List, [], Bytes, false,
  leb, ltb, ◌==◌, if◌then◌else◌, update, update-same, update-other, Bool-cases, inl, inr, minus_one,
  is_minus_one, codes, ◌>>=◌, arith,
}
use project_my_os.Printf.{printf}
use project_my_os.FileSystem.{FileSystem, file_read, file_load}
use project_my_os.Keyboard.{Terminal}
use project_my_os.Paging.{Layout, Paging, create_paging}
use project_my_os.SystemCall.{Pcb, Kernel, current, set_pcb, pcb_addr}
use project_my_os.SystemCall.Process.{
  Control, result, enters_user, program_ending_addr, parse_command, check_executable, filled,
  entry_point, init_fds, init_pcb, start_process, execute, halt,
}
use project_my_os.SystemCall.Ensures.{EnsuresSome, EnsuresSome-after, EnsuresSome-if}
use project_my_os.SystemCall.Keeps.{Keeps}

-- One process more, with its number in its control block; the other blocks keep theirs.
pub record Started (k k' : Kernel) : Type 0 where
  pub room : k.counter < 6
  pub counter : k'.counter ≡ k.counter + 1
  pub own : (k'.pcbs (pcb_addr (k.counter + 1))).pid ≡ k.counter + 1
  pub others : (a : ℕ) → a ≢ pcb_addr (k.counter + 1) → (k'.pcbs a).pid ≡ (k.pcbs a).pid

-- What an `execute` has done: failed, or started a process.
pub data Executed (k k' : Kernel) (ctl : Control) : Type 0 where
  failed : ctl ≡ result minus_one → k'.pcbs ≡ k.pcbs → Executed k k' ctl
  started : Started k k' → Executed k k' ctl

other_block :
    (k k' : Kernel) (p : Pcb) (a : ℕ)
    → a ≢ pcb_addr (k.counter + 1)
    → k'.counter ≡ k.counter + 1
    → k'.pcbs ≡ k.pcbs
    → (update k'.pcbs (pcb_addr k'.counter) p a).pid ≡ (k.pcbs a).pid
other_block k k' p a n one_more blocks =
    rw (one_more, blocks)
      (ap (λ (q : Pcb). q.pid) (update-other k.pcbs (pcb_addr (k.counter + 1)) p a n))

own_block :
    (k k' : Kernel) (p : Pcb)
    → p.pid ≡ k'.counter
    → k'.counter ≡ k.counter + 1
    → (update k'.pcbs (pcb_addr k'.counter) p (pcb_addr (k.counter + 1))).pid ≡ k.counter + 1
own_block k k' p number one_more =
    ap (λ (c : ℕ). (update k'.pcbs (pcb_addr k'.counter) p (pcb_addr c)).pid) (sym one_more)
    ∙ ap (λ (q : Pcb). q.pid) (update-same k'.pcbs (pcb_addr k'.counter) p)
    ∙ number
    ∙ one_more

init_pcb-Started :
    (k k' : Kernel) (esp ebp : ℕ) (arg_buf : Bytes)
    → k.counter < 6
    → k'.counter ≡ k.counter + 1
    → k'.pcbs ≡ k.pcbs
    → EnsuresSome (λ done. Started k done) (init_pcb k' esp ebp arg_buf)
unfolding init_pcb set_pcb
init_pcb-Started k k' esp ebp arg_buf room one_more blocks =
    EnsuresSome-if _ (ltb 1024 k'.arg_size) _ _ (λ past. tt)
      (λ fits. EnsuresSome-after _ (init_fds (current k').file_array) _ (λ fds. record {
        room = room;
        counter = one_more;
        own = own_block k k' _ refl one_more;
        others = λ a n. other_block k k' _ a n one_more blocks;
      }))

abbrev pub HasExecuted : Kernel → Kernel × Control → Type 0
HasExecuted k r = Executed k r.0 r.1

Started-bind :
    (k : Kernel) (m : Option Kernel) (entry : ℕ)
    → EnsuresSome (λ done. Started k done) m
    → EnsuresSome (HasExecuted k) (m >>= λ done. some (done, enters_user entry program_ending_addr))
Started-bind k none entry h = tt
Started-bind k (some done) entry h = started h

Started-after :
    (k k' : Kernel) (esp ebp : ℕ) (arg_buf : Bytes) (entry : ℕ)
    → EnsuresSome (λ done. Started k done) (init_pcb k' esp ebp arg_buf)
    → EnsuresSome
        (HasExecuted k)
        (init_pcb k' esp ebp arg_buf >>= λ done. some (done, enters_user entry program_ending_addr))
Started-after k k' esp ebp arg_buf entry h = Started-bind k (init_pcb k' esp ebp arg_buf) entry h

-- The state once the program is loaded.
abbrev counted : Kernel → ℕ → Paging → FileSystem → List ℕ → Kernel
counted k entry paging fs image = record k {
  counter = k.counter + 1;
  shell_entry_addr = if k.counter == 0 then entry else k.shell_entry_addr;
  paging = paging;
  terminal = record k.terminal { fs = fs };
  images = update k.images (k.counter + 1) image;
}

start_process-Executed :
    (l : Layout) (j k : Kernel) (esp ebp : ℕ) (name arg_buf : Bytes) (entry : ℕ)
    → j.counter < 6
    → k.counter ≡ j.counter
    → k.pcbs ≡ j.pcbs
    → EnsuresSome (HasExecuted j) (start_process l k esp ebp name arg_buf entry)
unfolding start_process
start_process-Executed l j k esp ebp name arg_buf entry room count blocks =
    EnsuresSome-after _ (create_paging l k.paging (k.counter + 1)) _ (λ paging.
      EnsuresSome-after _ (file_load k.terminal.fs (some name)) _ (λ loaded.
        EnsuresSome-if _ (is_minus_one loaded.1) _ _ (λ bad. failed refl blocks)
          (λ good.
            let k' = counted k entry paging loaded.0 loaded.2 in
            Started-after j k' esp ebp arg_buf entry
              (init_pcb-Started j k' esp ebp arg_buf room (ap (λ (c : ℕ). c + 1) count) blocks))))

set_terminal-Keeps : (k : Kernel) (t : Terminal) → Keeps k (record k { terminal = t })
set_terminal-Keeps k t = record { counter = refl; numbers = λ a. refl }

-- The message of a refused `execute` changes the screen only.
message-Executed :
    (k : Kernel)
    → EnsuresSome (HasExecuted k) (
        printf k.terminal.screen (codes "Can't execute more than 6 processes\n") [] >>= λ s.
        some (record k { terminal = record k.terminal { screen = s.0 } }, result minus_one))
message-Executed k = EnsuresSome-after _ (printf k.terminal.screen _ []) _ (λ s. failed refl refl)

below : (k : Kernel) → leb 6 k.counter ≡ false → k.counter < 6
below k h = ground arith

pub execute-Executed :
    (l : Layout) (k : Kernel) (esp ebp : ℕ) (stack : Bytes) (command : Option Bytes)
    → EnsuresSome (HasExecuted k) (execute l k esp ebp stack command)
unfolding execute
execute-Executed l k esp ebp stack none =
    EnsuresSome-if _ (leb 6 k.counter) _ _ (λ full. message-Executed k) (λ room. failed refl refl)
execute-Executed l k esp ebp stack (some command) =
    EnsuresSome-if _ (leb 6 k.counter) _ _ (λ full. message-Executed k)
      (λ room. EnsuresSome-after _ (parse_command command stack) _ (λ parsed.
        EnsuresSome-after _ (check_executable k.terminal.fs parsed.0 stack) _ (λ checked.
          EnsuresSome-if _ (is_minus_one checked.1) _ _ (λ bad. failed refl refl)
            (λ good. EnsuresSome-after _ (file_read checked.0 false 24 4 (some parsed.0)) _ (λ r.
              EnsuresSome-if _ (is_minus_one r.1) _ _ (λ bad. failed refl refl)
                (λ read.
                  start_process-Executed l k
                    (record k { arg_size = parsed.2; terminal = record k.terminal { fs = r.0 } })
                    esp ebp parsed.0 parsed.1 (entry_point (filled r.2 stack)) (below k room) refl
                    refl))))))

-- What `halt` has done: restarted the first process, or gone back to the one before.
pub data Halted (k k' : Kernel) : Type 0 where
  restarted : Keeps k k' → Halted k k'
  ended : (current k).pid ≢ 1 → k'.counter ≡ k.counter - 1 → k'.pcbs ≡ k.pcbs → Halted k k'

pub halt-Halted : (l : Layout) (k : Kernel) (status : ℕ) → Halted k (halt l k status).0
unfolding halt
halt-Halted l k status = elim (Bool-cases ((current k).pid == 1)) [
  | inl first ↦ rw first (restarted (record { counter = refl; numbers = λ a. refl }))
  | inr later ↦ rw later (ended (ground (arith, later)) refl refl)
]

-- From 1 to 6 processes, each with its number in its control block.
pub record IsPopulated (k : Kernel) : Type 0 where
  pub some_process : 1 ≤ k.counter
  pub at_most : k.counter ≤ 6
  pub numbers : (c : ℕ) → 1 ≤ c → c ≤ k.counter → (k.pcbs (pcb_addr c)).pid ≡ c

pub Keeps-IsPopulated : (k k' : Kernel) → Keeps k k' → IsPopulated k → IsPopulated k'
Keeps-IsPopulated k k' f v = record {
  some_process = rw f.counter v.some_process;
  at_most = rw f.counter v.at_most;
  numbers = λ c low high. f.numbers (pcb_addr c) ∙ v.numbers c low (omega (arith, f.counter));
}

Started-number :
    (k k' : Kernel) (c : ℕ)
    → Started k k'
    → IsPopulated k
    → 1 ≤ c
    → c ≤ k'.counter
    → (k'.pcbs (pcb_addr c)).pid ≡ c
Started-number k k' c s v low high = elim (Bool-cases (c == k.counter + 1)) [
  | inl new ↦ let e : c ≡ k.counter + 1 = ground (arith, new) in rw e s.own
  | inr old ↦
      let n : c ≢ k.counter + 1 = ground (arith, old) in
      let c' : c ≤ k.counter = omega (arith, s.counter, n) in
      s.others (pcb_addr c) (omega (arith, s.room, n, c')) ∙ v.numbers c low c'
]

pub Started-IsPopulated : (k k' : Kernel) → Started k k' → IsPopulated k → IsPopulated k'
Started-IsPopulated k k' s v = record {
  some_process = omega (arith, s.counter);
  at_most = omega (arith, s.counter, s.room);
  numbers = λ c low high. Started-number k k' c s v low high;
}

pub Halted-IsPopulated : (k k' : Kernel) → Halted k k' → IsPopulated k → IsPopulated k'
Halted-IsPopulated k k' (restarted f) v = Keeps-IsPopulated k k' f v
Halted-IsPopulated k k' (ended later count blocks) v =
    let own = v.numbers k.counter v.some_process (omega arith) in
    record {
      some_process = omega (arith, v.some_process, count, own, later);
      at_most = omega (arith, v.at_most, count);
      numbers = λ c low high. rw blocks (v.numbers c low (omega (arith, count)));
    }
