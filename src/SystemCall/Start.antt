-- ===== src/SystemCall/Start.antt =====
-- What execute of student-distrib/systemcall.c sets up for a new process.
use project_my_os.Base.{
  ℕ, ◌+◌, ◌-◌, ◌*◌, ◌/◌, ◌≡◌, inl, inr, refl, some, ◌==◌, if◌then◌else◌, ◌>>=◌, update, minus_one,
  is_minus_one, arith, Bytes, Bool-cases, ap, ◌∙◌, sym, zero_loop, bind-some, some-injective, ltb,
  false, none,
}
use project_my_os.Str.{strncpy}
use project_my_os.FileSystem.{file_load}
use project_my_os.Paging.{Layout, create_paging}
use project_my_os.SystemCall.{FileDescriptor, Pcb, Kernel, current, set_pcb, pcb_addr, bottom_stack}
use project_my_os.SystemCall.Process.{result, enters_user, init_fds, init_pcb, start_process}

-- What a control block says of the process and its parent.
pub record IsChild (p : Pcb) (k : Kernel) (esp ebp : ℕ) : Type 0 where
  pub number : p.pid ≡ k.counter
  pub sp : p.parent_kernel_sp ≡ esp
  pub bp : p.parent_kernel_bp ≡ ebp
  pub parent : p.parent_pid ≡ (
      if k.counter == 1
      then 0
      else if esp / 0x2000 * 0x2000 == pcb_addr k.counter
      then k.counter
      else (k.pcbs (esp / 0x2000 * 0x2000)).pid)

-- The state with a control block for the new process: nothing else but the kernel stack changes.
unfoldable pub set_up : Kernel → Pcb → Kernel
set_up k p = set_pcb (record k { esp0 = bottom_stack + 0x2000 - k.counter * 0x2000 - 4 }) p

-- The control block that `init_pcb` fills, with these descriptors.
unfoldable pub block : Kernel → ℕ → ℕ → Bytes → (ℕ → FileDescriptor) → Pcb
block k esp ebp arg_buf fds = record {
  pid = k.counter;
  parent_pid =
      if k.counter == 1
      then 0
      else if esp / 0x2000 * 0x2000 == pcb_addr k.counter
      then k.counter
      else (k.pcbs (esp / 0x2000 * 0x2000)).pid;
  parent_kernel_sp = esp;
  parent_kernel_bp = ebp;
  file_array = fds;
  arg = strncpy (zero_loop 1024 0 (current k).arg) arg_buf k.arg_size;
}

pub init_pcb-block :
    (k : Kernel) (esp ebp : ℕ) (arg_buf : Bytes) (fds : ℕ → FileDescriptor)
    → ltb 1024 k.arg_size ≡ false
    → init_fds (current k).file_array ≡ some fds
    → init_pcb k esp ebp arg_buf ≡ some (set_up k (block k esp ebp arg_buf fds))
unfolding init_pcb set_up block
init_pcb-block k esp ebp arg_buf fds room e = rw (room, e, ◌>>=◌)

none_is_some : {k : Kernel} → none ≡ some k → ⊥
none_is_some e = cc

pub init_pcb_lem :
    (k : Kernel) (esp ebp : ℕ) (arg_buf : Bytes) (done : Kernel)
    → init_pcb k esp ebp arg_buf ≡ some done
    → (p : Pcb) × (done ≡ set_up k p) × IsChild p k esp ebp
unfolding init_pcb block
init_pcb_lem k esp ebp arg_buf done e = elim (Bool-cases (ltb 1024 k.arg_size)) [
  | inl past ↦ absurd (none_is_some (rw past at e))
  | inr room ↦
      let (fds, found, built) = bind-some (init_fds (current k).file_array) _ done (rw room at e) in
      (
        block k esp ebp arg_buf fds,
        some-injective _ _ (sym e ∙ init_pcb-block k esp ebp arg_buf fds room found),
        record { number = refl; sp = refl; bp = refl; parent = refl },
      )
]

-- The state when `start_process` comes to the control block: one more process, its address space,
-- its program.
pub record IsLoaded (l : Layout) (k k' : Kernel) : Type 0 where
  pub counted : k'.counter ≡ k.counter + 1
  pub blocks : k'.pcbs ≡ k.pcbs
  pub spaces : create_paging l k.paging (k.counter + 1) ≡ some k'.paging

pub start_process_lem :
    (l : Layout) (k : Kernel) (esp ebp : ℕ) (name arg_buf : Bytes) (entry : ℕ) (done : Kernel)
    (e s : ℕ)
    → start_process l k esp ebp name arg_buf entry ≡ some (done, enters_user e s)
    → (k' : Kernel) × IsLoaded l k k' × (init_pcb k' esp ebp arg_buf ≡ some done) × (e ≡ entry)
unfolding start_process
start_process_lem l k esp ebp name arg_buf entry done e s h =
    let (paging, made, h1) = bind-some (create_paging l k.paging (k.counter + 1)) _ _ h in
    let (loaded, read, h2) = bind-some (file_load k.terminal.fs (some name)) _ _ h1 in
    let k' : Kernel = record k {
      counter = k.counter + 1;
      shell_entry_addr = if k.counter == 0 then entry else k.shell_entry_addr;
      paging = paging;
      terminal = record k.terminal { fs = loaded.0 };
      images = update k.images (k.counter + 1) loaded.2;
    } in
    elim (Bool-cases (is_minus_one loaded.1)) [
      | inl bad ↦
          let clash : some (k', result minus_one) ≡ some (done, enters_user e s) = rw bad at h2 in
          ground (arith, clash)
      | inr good ↦
          let built : (init_pcb k' esp ebp arg_buf >>= λ d. some (d, enters_user entry 0x083ffffc))
              ≡ some (done, enters_user e s) =
            rw good at h2 in
          let (d, init, final) = bind-some (init_pcb k' esp ebp arg_buf) _ _ built in
          let same : (d, enters_user entry 0x083ffffc) ≡ (done, enters_user e s) =
            some-injective _ _ final in
          (
            k',
            record { counted = refl; blocks = refl; spaces = made },
            init ∙ ap some (ap (λ v. v.0) same),
            ground (arith, same),
          )
    ]
