-- ===== src/Fish/Allocator.antt =====
-- mp1_malloc and mp1_free of fish/fish.c: the array of blinks as a store of slots.
use project_my_os.Base.{
  ℕ, zero, suc, ◌+◌, ◌*◌, ◌%◌, ◌≤◌, ◌<◌, ◌≡◌, ◌≢◌, refl, ◌∙◌, ap, false, Bool-cases, inl, inr,
  Option, some, ◌==◌, ltb, leb, ◌&&◌, if◌then◌else◌, ==→eq, Bytes, update, update_lem, arith,
}
use project_my_os.Fish.{
  ece391_memset_loop, ece391_memset, slot_location, malloc_loop, mp1_malloc, mp1_free,
}

ece391_memset_loop_lem :
    (r : ℕ) (mem : Bytes) (memory c i a : ℕ)
    → ece391_memset_loop r mem memory c i a
      ≡ (if leb (memory + i) a && ltb a (memory + i + r) then c % 256 else mem a)
unfolding ece391_memset_loop
ece391_memset_loop_lem zero mem memory c i a = ground arith
ece391_memset_loop_lem (suc r) mem memory c i a = ground (
  arith,
  ece391_memset_loop_lem r (update mem (memory + i) (c % 256)) memory c (i + 1) a,
  update_lem mem (memory + i) (c % 256) a,
)

mp1_free_lem :
    (mem : Bytes) (memory a : ℕ)
    → mp1_free mem memory a ≡ (if leb memory a && ltb a (memory + 16) then 0 else mem a)
unfolding mp1_free ece391_memset
mp1_free_lem mem memory a = ground (arith, ece391_memset_loop_lem 16 mem memory 0 0 a)

in_use : (x : ℕ) → (x == 0) ≡ false → x ≢ 0
in_use x h = ground arith

used_before :
    (mem : Bytes) (base i j m : ℕ)
    → slot_location mem base i ≢ 0
    → ((m : ℕ) → i + 1 ≤ m → m < j → slot_location mem base m ≢ 0)
    → i ≤ m
    → m < j
    → slot_location mem base m ≢ 0
used_before mem base i j m taken before a b = elim (Bool-cases (i == m)) [
  | inl same ↦ rw (← ==→eq i m same) taken
  | inr other ↦ before m (ground arith) b
]

-- A slot is given: the first free one from slot `i` on.
IsGiven : Option ℕ → Bytes → (base i t : ℕ) → Type 0
IsGiven o mem base i t =
    (j : ℕ) × (o ≡ some (base + 16 * j))
    × (i ≤ j)
    × (j ≤ t)
    × (slot_location mem base j ≡ 0)
    × ((m : ℕ) → i ≤ m → m < j → slot_location mem base m ≢ 0)

malloc_loop_lem :
    (r : ℕ) (mem : Bytes) (base i t : ℕ)
    → i ≤ t
    → t < i + r
    → slot_location mem base t ≡ 0
    → IsGiven (malloc_loop r mem base i) mem base i t
unfolding malloc_loop IsGiven
malloc_loop_lem zero mem base i t low high free = absurd (omega arith)
malloc_loop_lem (suc r) mem base i t low high free =
    elim (Bool-cases (slot_location mem base i == 0)) [
      | inl here ↦ (
        i,
        rw (here, malloc_loop) refl,
        omega arith,
        low,
        ==→eq (slot_location mem base i) 0 here,
        λ m a b. absurd (omega arith),
      )
      | inr used ↦
          let taken : slot_location mem base i ≢ 0 = in_use (slot_location mem base i) used in
          let other : i ≢ t = λ same. taken (ap (slot_location mem base) same ∙ free) in
          let later : i + 1 ≤ t = omega arith in
          let (j, e, a, b, z, before) =
            malloc_loop_lem r mem base (i + 1) t later (omega arith) free in
          (
            j,
            rw (used, malloc_loop) e,
            omega arith,
            b,
            z,
            λ m c d. used_before mem base i j m taken before c d,
          )
    ]

freed_slot : (mem : Bytes) (base i : ℕ) → slot_location (mp1_free mem (base + 16 * i)) base i ≡ 0
unfolding slot_location
freed_slot mem base i = ground (
  arith,
  mp1_free_lem mem (base + 16 * i) (base + 16 * i),
  mp1_free_lem mem (base + 16 * i) (base + 16 * i + 1),
)

other_slot :
    (mem : Bytes) (base i j : ℕ)
    → j ≢ i
    → slot_location (mp1_free mem (base + 16 * i)) base j ≡ slot_location mem base j
unfolding slot_location
other_slot mem base i j n = ground (
  arith,
  mp1_free_lem mem (base + 16 * i) (base + 16 * j),
  mp1_free_lem mem (base + 16 * i) (base + 16 * j + 1),
)

-- What mp1_free has freed is found: freeing slot `i` leaves the locations of the other slots, and
-- then mp1_malloc gives a slot that is free, at most `i`, with all slots before it in use.
pub mp1_malloc-free :
    (mem : Bytes) (base i : ℕ)
    → i < 2000
    → let mem' = mp1_free mem (base + 16 * i) in
      ((j : ℕ) → j ≢ i → slot_location mem' base j ≡ slot_location mem base j)
      × (j : ℕ) × (mp1_malloc mem' base ≡ some (base + 16 * j))
      × (j ≤ i)
      × (slot_location mem' base j ≡ 0)
      × ((m : ℕ) → m < j → slot_location mem base m ≢ 0)
unfolding mp1_malloc IsGiven
mp1_malloc-free mem base i h =
    let mem' : Bytes = mp1_free mem (base + 16 * i) in
    let (j, e, a, b, z, before) =
      malloc_loop_lem 2000 mem' base 0 i (omega arith) (omega arith) (freed_slot mem base i) in
    (
      λ j n. other_slot mem base i j n,
      j,
      e,
      b,
      z,
      λ m c used. before m (omega arith) c (other_slot mem base i m (omega arith) ∙ used),
    )
