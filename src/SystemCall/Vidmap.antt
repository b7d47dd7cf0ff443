-- ===== src/SystemCall/Vidmap.antt =====
-- vidmap, set_handler and sigreturn of student-distrib/systemcall.c.
use project_my_os.Base.{
  ℕ, ◌-◌, ◌*◌, ◌/◌, refl, ap, ◌∙◌, ◌≤◌, ◌<◌, ◌≡◌, ◌⊎◌, inl, inr, Bool-cases, ltb→lt, ltb_false→le,
  ltb_of_le, leb→le, leb_of_lt, ne→==, Option, none, some, ltb, leb, ◌||◌, ◌==◌, if◌then◌else◌,
  update, ℤ, pos, minus_one, arith,
}
use project_my_os.Paging.{
  Layout, PageEntry, Pde, kb, fill_loop, table_entry, page_table_size, video_mem,
}
use project_my_os.Paging.Loops.{fill_loop_lem}
use project_my_os.SystemCall.{Kernel}

-- `(i == 0) ? 1 : 0`
abbrev first : ℕ → ℕ
first i = if i == 0 then 1 else 0

-- Entry `i` of `page_table_video`: only the first page, which is the text page.
unfoldable pub video_entry : ℕ → PageEntry
video_entry i = record {
  present = first i;
  read_write = first i;
  user_supervisor = first i;
  write_through = 0;
  cache_disabled = 0;
  accessed = 0;
  dirty = 0;
  pat = 0;
  global = 0;
  available = 0;
  base_addr = 184;
}

-- `vidmap`, given the address `screen_start`: the state, the result, and what it stores there.
-- With no process it would write before the array of directories: `none`.
unfoldable pub vidmap : Layout → Kernel → ℕ → Option (Kernel × ℤ × Option ℕ)
vidmap l k screen_start =
    if ltb screen_start 0x08000000 || leb 0x08400000 screen_start
    then some (k, minus_one, none)
    else if k.counter == 0
    then none
    else some (
      record k {
        paging = record k.paging {
          page_table_video = fill_loop page_table_size 0 video_entry k.paging.page_table_video;
          page_directories = update k.paging.page_directories (k.counter - 1) (
              update (k.paging.page_directories (k.counter - 1)) video_mem
                (table_entry l.page_table_video));
        };
      },
      pos 0,
      some 0x8400000,
    )

unfoldable pub set_handler : ℤ
set_handler = minus_one

unfoldable pub sigreturn : ℤ
sigreturn = minus_one

-- The state after a call that is not refused.
mapped : Layout → Kernel → Kernel
mapped l k = record k {
  paging = record k.paging {
    page_table_video = fill_loop 1024 0 video_entry k.paging.page_table_video;
    page_directories =
        update k.paging.page_directories (k.counter - 1)
          (update (k.paging.page_directories (k.counter - 1)) 33 (table_entry l.page_table_video));
  };
}

mapped-directories :
    (l : Layout) (k : Kernel) (j i : ℕ)
    → (mapped l k).paging.page_directories j i ≡ (
        if j == k.counter - 1
        then if i == 33 then table_entry l.page_table_video else k.paging.page_directories j i
        else k.paging.page_directories j i)
unfolding mapped update
mapped-directories l k j i = ground arith

mapped-table :
    (l : Layout) (k : Kernel) (i : ℕ)
    → i < 1024
    → (mapped l k).paging.page_table_video i ≡ video_entry i
unfolding mapped
mapped-table l k i h = ground (arith, fill_loop_lem 1024 0 video_entry k.paging.page_table_video i)

vidmap-mapped :
    (l : Layout) (k : Kernel) (screen_start : ℕ)
    → 0 < k.counter
    → 0x08000000 ≤ screen_start
    → screen_start < 0x08400000
    → vidmap l k screen_start ≡ some (mapped l k, pos 0, some 0x8400000)
unfolding vidmap mapped
vidmap-mapped l k screen_start h a b = rw (
  ltb_of_le screen_start 0x08000000 a,
  leb_of_lt 0x08400000 screen_start b,
  ne→== k.counter 0 (omega arith),
)

-- A page entry that lets user programs read and write the text page at 0xB8000.
pub record IsTextPage (e : PageEntry) : Type 0 where
  pub present : e.present ≡ 1
  pub read_write : e.read_write ≡ 1
  pub user_supervisor : e.user_supervisor ≡ 1
  pub address : e.base_addr * 4096 ≡ 0xB8000

-- A directory entry for the page table at an address: present, writable, for user programs, of 4 KB
-- pages, and nothing else.
abbrev pub user_table : ℕ → Pde
user_table addr = kb (record {
  present = 1;
  read_write = 1;
  user_supervisor = 1;
  write_through = 0;
  cache_disabled = 0;
  accessed = 0;
  reserved = 0;
  page_size = 0;
  global_page = 0;
  available = 0;
  base_addr = addr / 4096;
})

first-IsTextPage : IsTextPage (video_entry 0)
unfolding video_entry
first-IsTextPage = record {
  present = refl;
  read_write = refl;
  user_supervisor = refl;
  address = refl;
}

later-absent : (i : ℕ) → 0 < i → (video_entry i).present ≡ 0
unfolding video_entry
later-absent i h = ground arith

-- While a process runs, a pointer outside the program's page is refused and nothing changes. For
-- a pointer inside it the running process's directory gets the video table at entry 33 and keeps
-- its other entries, no other directory changes, the table has the text page at its first entry
-- and maps nothing else, and the program is given the address 132 MB.
pub vidmap_lem :
    (l : Layout) (k : Kernel) (screen_start : ℕ)
    → 0 < k.counter
    → ((screen_start < 0x08000000) ⊎ (0x08400000 ≤ screen_start))
        × (vidmap l k screen_start ≡ some (k, minus_one, none))
      ⊎ (0x08000000 ≤ screen_start)
        × (screen_start < 0x08400000)
        × (k' : Kernel) × (vidmap l k screen_start ≡ some (k', pos 0, some 0x8400000))
        × ((j i : ℕ)
            → k'.paging.page_directories j i ≡ (
                if j == k.counter - 1
                then if i == 33
                  then user_table l.page_table_video
                  else k.paging.page_directories j i
                else k.paging.page_directories j i))
        × IsTextPage (k'.paging.page_table_video 0)
        × ((i : ℕ) → 0 < i → i < 1024 → (k'.paging.page_table_video i).present ≡ 0)
unfolding vidmap table_entry
vidmap_lem l k s h = elim (Bool-cases (ltb s 0x08000000)) [
  | inl low ↦ inl (inl (ltb→lt _ _ low), rw low)
  | inr high ↦ elim (Bool-cases (leb 0x08400000 s)) [
    | inl past ↦ inl (inr (leb→le _ _ past), rw (high, past))
    | inr inside ↦
        let a : 0x08000000 ≤ s = ltb_false→le _ _ high in
        let b : s < 0x08400000 = ground arith in
        inr (
          a,
          b,
          mapped l k,
          vidmap-mapped l k s h a b,
          mapped-directories l k,
          rw (mapped-table l k 0 (omega arith)) first-IsTextPage,
          λ i c d. ap (λ e. e.present) (mapped-table l k i d) ∙ later-absent i c,
        )
  ]
]
