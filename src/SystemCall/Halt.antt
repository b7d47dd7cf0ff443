-- ===== src/SystemCall/Halt.antt =====
-- halt of student-distrib/systemcall.c, after the execute that started the process.
use project_my_os.Base.{
  ℕ, ◌+◌, ◌-◌, ◌*◌, ◌/◌, ◌%◌, ◌^◌, ◌≤◌, ◌<◌, ◌≡◌, ◌≢◌, refl, some, arith, Bytes, ne→==, ap, ap₂,
  ◌∙◌, sym, bit_and,
}
use project_my_os.Paging.{Layout, create_paging, directory_addr}
use project_my_os.Paging.Create.{create_paging_lem}
use project_my_os.SystemCall.{Pcb, Kernel, current, set_pcb, pcb_addr, bottom_stack}
use project_my_os.SystemCall.Descriptors.{current-set_pcb, update-other}
use project_my_os.SystemCall.Process.{enters_user, resumes, start_process, parent_directory, halt}
use project_my_os.SystemCall.Start.{IsChild, set_up, init_pcb_lem, IsLoaded, start_process_lem}

-- The state after `halt` of a process that is not the first.
ended : Layout → Kernel → Kernel
ended l k = record k {
  counter = k.counter - 1;
  page_dir_addr = parent_directory l (current k);
  paging = record k.paging { cr3 = bit_and (parent_directory l (current k)) 0xFFFFFFE7 };
  esp0 = bottom_stack + 0x2000 - (k.counter - 1) * 0x2000 - 4;
}

halt-ended :
    (l : Layout) (k : Kernel) (status : ℕ)
    → (current k).pid ≢ 1
    → halt l k status ≡ (
      ended l k,
      resumes (current k).parent_kernel_sp (current k).parent_kernel_bp (status % 256),
    )
unfolding halt ended
halt-ended l k status h = rw (ne→== (current k).pid 1 h)

-- The running process, told apart by the stack that `esp` lies in.
pub record IsRunning (k : Kernel) (esp : ℕ) : Type 0 where
  pub some_process : 0 < k.counter
  pub room : k.counter < 6
  pub own_stack : esp / 0x2000 * 0x2000 ≡ pcb_addr k.counter
  pub number : (current k).pid ≡ k.counter

IsChild-parent :
    (l : Layout) (k k' : Kernel) (esp ebp : ℕ) (p : Pcb)
    → IsRunning k esp
    → IsLoaded l k k'
    → IsChild p k' esp ebp
    → p.parent_pid ≡ k.counter
IsChild-parent l k k' esp ebp p r d c =
    let c' = d.counted in
    let other : pcb_addr k.counter ≢ pcb_addr k'.counter =
      rw c' (omega (arith, r.some_process, r.room)) in
    c.parent
    ∙ rw
        (
          ne→== k'.counter 1 (omega (arith, c', r.some_process)),
          r.own_stack,
          ne→== (pcb_addr k.counter) (pcb_addr k'.counter) other,
          d.blocks,
        )
        r.number

parent_directory_lem :
    (l : Layout) (p : Pcb) (n : ℕ)
    → 0 < n
    → n < 6
    → l.page_directories + 24576 ≤ 2 ^ 32
    → p.parent_pid ≡ n
    → parent_directory l p ≡ directory_addr l (n - 1)
unfolding parent_directory directory_addr
parent_directory_lem l p n h k fits e = rw e (omega arith)

-- What `execute` leaves for `halt`.
record IsStarted (l : Layout) (k done : Kernel) (esp ebp : ℕ) : Type 0 where
  counted : done.counter ≡ k.counter + 1
  spaces : create_paging l k.paging (k.counter + 1) ≡ some done.paging
  number : (current done).pid ≡ k.counter + 1
  sp : (current done).parent_kernel_sp ≡ esp
  bp : (current done).parent_kernel_bp ≡ ebp
  parent : (current done).parent_pid ≡ k.counter
  caller : done.pcbs (pcb_addr k.counter) ≡ current k

set_up-current : (k : Kernel) (p : Pcb) → current (set_up k p) ≡ p
unfolding set_up
set_up-current k p =
    current-set_pcb (record k { esp0 = bottom_stack + 0x2000 - k.counter * 0x2000 - 4 }) p

set_up-caller :
    (k : Kernel) (p : Pcb) (n : ℕ)
    → pcb_addr n ≢ pcb_addr k.counter
    → (set_up k p).pcbs (pcb_addr n) ≡ k.pcbs (pcb_addr n)
unfolding set_up set_pcb
set_up-caller k p n h = update-other k.pcbs (pcb_addr k.counter) p (pcb_addr n) h

set_up-rest :
    (k : Kernel) (p : Pcb) → ((set_up k p).counter ≡ k.counter) × ((set_up k p).paging ≡ k.paging)
unfolding set_up set_pcb
set_up-rest k p = (refl, refl)

set_up-IsStarted :
    (l : Layout) (k k' : Kernel) (esp ebp : ℕ) (p : Pcb)
    → IsRunning k esp
    → IsLoaded l k k'
    → IsChild p k' esp ebp
    → IsStarted l k (set_up k' p) esp ebp
set_up-IsStarted l k k' esp ebp p r d c =
    let at = set_up-current k' p in
    let rest = set_up-rest k' p in
    let c' = d.counted in
    let other : pcb_addr k.counter ≢ pcb_addr k'.counter =
      rw c' (omega (arith, r.some_process, r.room)) in
    record {
      counted = rest.0 ∙ c';
      spaces = d.spaces ∙ ap some (sym rest.1);
      number = ap (λ q. q.pid) at ∙ c.number ∙ c';
      sp = ap (λ q. q.parent_kernel_sp) at ∙ c.sp;
      bp = ap (λ q. q.parent_kernel_bp) at ∙ c.bp;
      parent = ap (λ q. q.parent_pid) at ∙ IsChild-parent l k k' esp ebp p r d c;
      caller = set_up-caller k' p k.counter other ∙ ap (λ b. b (pcb_addr k.counter)) d.blocks;
    }

ended-current :
    (l : Layout) (k : Kernel) (n : ℕ)
    → k.counter ≡ n + 1
    → ((ended l k).counter ≡ n) × (current (ended l k) ≡ k.pcbs (pcb_addr n))
unfolding ended
ended-current l k n h =
    let e : k.counter - 1 ≡ n = omega (arith, h) in (e, ap (λ m. k.pcbs (pcb_addr m)) e)

ended-paging :
    (l : Layout) (k : Kernel)
    → ((ended l k).paging.cr3 ≡ bit_and (parent_directory l (current k)) 0xFFFFFFE7)
      × ((ended l k).paging.page_directories ≡ k.paging.page_directories)
unfolding ended
ended-paging l k = (refl, refl)

-- Where the running process, one of the first five, starts another one on its own kernel stack and
-- that one halts, control comes back to the stack and frame pointers that `execute` had, with the
-- low byte of the status; the process number, the control block with its descriptors, and the page
-- directory of the caller are as before, and that directory is the one that is loaded.
pub halt-start_process :
    (l : Layout) (k : Kernel) (esp ebp : ℕ) (name arg_buf : Bytes) (entry : ℕ) (done : Kernel)
    (e s status : ℕ)
    → IsRunning k esp
    → l.page_directories + 24576 ≤ 2 ^ 32
    → start_process l k esp ebp name arg_buf entry ≡ some (done, enters_user e s)
    → (back : Kernel) × (halt l done status ≡ (back, resumes esp ebp (status % 256)))
      × (back.counter ≡ k.counter)
      × (current back ≡ current k)
      × (back.paging.cr3 ≡ bit_and (directory_addr l (k.counter - 1)) 0xFFFFFFE7)
      × (back.paging.page_directories (k.counter - 1) ≡ k.paging.page_directories (k.counter - 1))
halt-start_process l k esp ebp name arg_buf entry done e s status r fits h =
    let (k', d, built, same) = start_process_lem l k esp ebp name arg_buf entry done e s h in
    let (p, final, c) = init_pcb_lem k' esp ebp arg_buf done built in
    let st : IsStarted l k done esp ebp = rw final (set_up-IsStarted l k k' esp ebp p r d c) in
    let (q, made, own, others, cr3) =
      create_paging_lem l k.paging (k.counter + 1) (omega arith) (omega (arith, r.room)) in
    let pages : done.paging ≡ q = cc (made, st.spaces) in
    let back = ended-current l done k.counter st.counted in
    let pid : (current done).pid ≢ 1 = omega (arith, st.number, r.some_process) in
    (
      ended l done,
      halt-ended l done status pid
          ∙ ap₂ (λ a b. (ended l done, resumes a b (status % 256))) st.sp st.bp,
      back.0,
      back.1 ∙ st.caller,
      (ended-paging l done).0
          ∙ ap (λ a. bit_and a 0xFFFFFFE7)
              (parent_directory_lem l (current done) k.counter r.some_process r.room fits
                st.parent),
      ap (λ f. f (k.counter - 1)) (ended-paging l done).1
          ∙ ap (λ g. g.page_directories (k.counter - 1)) pages
          ∙ others (k.counter - 1) (omega (arith, r.some_process)),
    )
