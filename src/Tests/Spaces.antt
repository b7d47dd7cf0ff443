-- ===== src/Tests/Spaces.antt =====
-- create_paging and vidmap of student-distrib on that kernel.
use project_my_os.Base.{
  ℕ, ◌≤◌, ◌<◌, ◌≡◌, ◌≢◌, ◌⊎◌, refl, none, some, if◌then◌else◌, ◌==◌, pos, minus_one, arith, ap, ◌∙◌,
}
use project_my_os.Paging.{Paging, create_paging, absent_entry, program_entry}
use project_my_os.Paging.Create.{create_paging_lem, user_frame, create_paging_isolates}
use project_my_os.SystemCall.{Kernel}
use project_my_os.SystemCall.Vidmap.{vidmap, vidmap_lem, user_table, IsTextPage}
use project_my_os.Tests.Machine.{layout, empty_paging, kernel}

vidmap_lem_example :
    ((0x08001000 < 0x08000000) ⊎ (0x08400000 ≤ 0x08001000))
      × (vidmap layout kernel 0x08001000 ≡ some (kernel, minus_one, none))
    ⊎ (0x08000000 ≤ 0x08001000)
      × (0x08001000 < 0x08400000)
      × (k' : Kernel) × (vidmap layout kernel 0x08001000 ≡ some (k', pos 0, some 0x8400000))
      × ((j i : ℕ)
          → k'.paging.page_directories j i ≡ (
              if j == 0
              then if i == 33 then user_table 0x411000 else absent_entry
              else absent_entry))
      × IsTextPage (k'.paging.page_table_video 0)
      × ((i : ℕ) → 0 < i → i < 1024 → (k'.paging.page_table_video i).present ≡ 0)
vidmap_lem_example = vidmap_lem layout kernel 0x08001000 (omega arith)

made2 :
    (q : Paging) × (create_paging layout empty_paging 2 ≡ some q)
    × (user_frame (q.page_directories 1 32) ≡ some 3)
unfolding user_frame program_entry
made2 =
    let (q, e, own, others, cr3) =
      create_paging_lem layout empty_paging 2 (omega arith) (omega arith) in
    (q, e, rw (own 32 (omega arith)) refl)

made3 :
    (q : Paging) × (create_paging layout made2.0 3 ≡ some q)
    × (user_frame (q.page_directories 1 32) ≡ some 3)
    × (user_frame (q.page_directories 2 32) ≡ some 4)
unfolding user_frame program_entry
made3 =
    let (q, e, own, others, cr3) = create_paging_lem layout made2.0 3 (omega arith) (omega arith) in
    (
      q,
      e,
      ap (λ d. user_frame (d 32)) (others 1 (omega arith)) ∙ made2.2,
      rw (own 32 (omega arith)) refl,
    )

abbrev three : ℕ
three = 3

create_paging_isolates_example : (three ≢ 4) × (three ≢ 1) × (2 ≤ three) × (three < 8)
create_paging_isolates_example =
    create_paging_isolates layout empty_paging made2.0 made3.0 2 3 (omega arith) (omega arith)
      (omega arith) (omega arith) (omega arith) made2.1 made3.1 32 32 3 4 (omega arith)
      (omega arith) made3.2 made3.3
