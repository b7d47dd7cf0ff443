-- ===== src/Paging/Create.antt =====
-- The address space that create_paging of student-distrib/mypaging.c gives a process.
use project_my_os.Base.{
  ℕ, ◌+◌, ◌-◌, ◌≤◌, ◌<◌, ◌≡◌, ◌≢◌, refl, Option, none, some, ◌==◌, if◌then◌else◌, update,
  update_lem, arith, bit_and, leb_of_lt, ne→==, eq→==, ap, ◌∙◌,
}
use project_my_os.Paging.{
  Layout, Paging, Pde, kb, mb, create_paging, process_directory, fill_loop, shell_entry,
  table_entry, kernel_entry, absent_entry, program_entry, directory_addr, load_control,
}
use project_my_os.Paging.Loops.{fill_loop_lem}

-- The whole address space of process `process`, entry by entry.
abbrev pub space : Layout → ℕ → ℕ → Pde
space l process i =
    if i == 0
    then table_entry l.page_table_shell
    else if i == 1
    then kernel_entry
    else if i == 32
    then program_entry process
    else absent_entry

process_directory_lem :
    (l : Layout) (process : ℕ) (d : ℕ → Pde) (i : ℕ)
    → i < 1024
    → process_directory l process d i ≡ space l process i
unfolding process_directory
process_directory_lem l process d i h = ground (
  arith,
  update_lem
      (fill_loop 1022 2 (λ i. absent_entry)
        (update (update d 0 (table_entry l.page_table_shell)) 1 kernel_entry))
      32 (program_entry process) i,
  fill_loop_lem 1022 2 (λ i. absent_entry)
      (update (update d 0 (table_entry l.page_table_shell)) 1 kernel_entry) i,
  update_lem (update d 0 (table_entry l.page_table_shell)) 1 kernel_entry i,
  update_lem d 0 (table_entry l.page_table_shell) i,
)

-- The state after `create_paging` for a number in range.
created : Layout → Paging → ℕ → Paging
created l p process =
    load_control
      (record p {
        page_table_shell = fill_loop 1024 0 shell_entry p.page_table_shell;
        page_directories =
            update p.page_directories (process - 1)
              (process_directory l process (p.page_directories (process - 1)));
        page_dir_address = directory_addr l (process - 1);
      })
      (directory_addr l (process - 1))

create_paging-created :
    (l : Layout) (p : Paging) (process : ℕ)
    → 0 < process
    → process ≤ 6
    → create_paging l p process ≡ some (created l p process)
unfolding create_paging created
create_paging-created l p process h k =
    rw (leb_of_lt 7 process (omega arith), ne→== process 0 (omega arith))

created-directories :
    (l : Layout) (p : Paging) (process j : ℕ)
    → (created l p process).page_directories j ≡ (
        if j == process - 1
        then process_directory l process (p.page_directories (process - 1))
        else p.page_directories j)
unfolding created load_control
created-directories l p process j = update_lem p.page_directories (process - 1) _ j

created-own :
    (l : Layout) (p : Paging) (process i : ℕ)
    → i < 1024
    → (created l p process).page_directories (process - 1) i ≡ space l process i
created-own l p process i h =
    rw (created-directories l p process (process - 1), eq→== (process - 1) (process - 1) refl)
      (process_directory_lem l process (p.page_directories (process - 1)) i h)

created-others :
    (l : Layout) (p : Paging) (process j : ℕ)
    → j ≢ process - 1
    → (created l p process).page_directories j ≡ p.page_directories j
created-others l p process j n = rw (created-directories l p process j, ne→== j (process - 1) n)

created-cr3 :
    (l : Layout) (p : Paging) (process : ℕ)
    → (created l p process).cr3 ≡ bit_and (directory_addr l (process - 1)) 0xFFFFFFE7
unfolding created load_control
created-cr3 l p process = refl

-- For a process number from 1 to 6 the process's own directory is set up entry by entry and
-- becomes the current one, and the directories of the other processes are left as they were.
pub create_paging_lem :
    (l : Layout) (p : Paging) (process : ℕ)
    → 0 < process
    → process ≤ 6
    → (q : Paging) × (create_paging l p process ≡ some q)
      × ((i : ℕ) → i < 1024 → q.page_directories (process - 1) i ≡ space l process i)
      × ((j : ℕ) → j ≢ process - 1 → q.page_directories j ≡ p.page_directories j)
      × (q.cr3 ≡ bit_and (directory_addr l (process - 1)) 0xFFFFFFE7)
create_paging_lem l p process h k = (
  created l p process,
  create_paging-created l p process h k,
  λ i l1. created-own l p process i l1,
  λ j n. created-others l p process j n,
  created-cr3 l p process,
)

-- The 4 MB frame that an entry opens to user programs, if it is a large page that is present.
unfoldable pub user_frame : Pde → Option ℕ
user_frame (kb e) = none
user_frame (mb e) =
    if e.present == 1 then (if e.user_supervisor == 1 then some e.base_addr else none) else none

user_frame-space :
    (l : Layout) (process i f : ℕ) → user_frame (space l process i) ≡ some f → f ≡ process + 1
unfolding user_frame table_entry kernel_entry absent_entry program_entry
user_frame-space l process i f h = ground arith

-- Isolation: after two different processes have been set up, one after the other, a large page
-- that user code of the one may touch is never a page that user code of the other may touch, nor
-- the kernel's page, and lies between 8 MB and 32 MB.
pub create_paging_isolates :
    (l : Layout) (s t u : Paging) (p q : ℕ)
    → p ≢ q
    → 0 < p
    → p ≤ 6
    → 0 < q
    → q ≤ 6
    → create_paging l s p ≡ some t
    → create_paging l t q ≡ some u
    → (i j f g : ℕ) → i < 1024
    → j < 1024
    → user_frame (u.page_directories (p - 1) i) ≡ some f
    → user_frame (u.page_directories (q - 1) j) ≡ some g
    → (f ≢ g) × (f ≢ 1) × (2 ≤ f) × (f < 8)
create_paging_isolates l s t u p q n hp kp hq kq et eu i j f g hi hj ef eg =
    let st : t ≡ created l s p = cc (create_paging-created l s p hp kp) in
    let su : u ≡ created l t q = cc (create_paging-created l t q hq kq) in
    let mine : u.page_directories (p - 1) i ≡ space l p i =
      ap (λ v. v.page_directories (p - 1) i) su
      ∙ ap (λ d. d i) (created-others l t q (p - 1) (omega arith))
      ∙ ap (λ v. v.page_directories (p - 1) i) st
      ∙ created-own l s p i hi in
    let theirs : u.page_directories (q - 1) j ≡ space l q j =
      ap (λ v. v.page_directories (q - 1) j) su ∙ created-own l t q j hj in
    let frame : f ≡ p + 1 = user_frame-space l p i f (rw mine at ef) in
    let frame' : g ≡ q + 1 = user_frame-space l q j g (rw theirs at eg) in
    (omega arith, omega arith, omega arith, omega arith)
