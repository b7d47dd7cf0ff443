-- ===== src/Idt/Vectors.antt =====
-- What IDT_init of student-distrib/idt.c leaves in the table, vector by vector.
use project_my_os.Base.{
  ℕ, zero, suc, ◌+◌, ◌*◌, ◌^◌, ◌≤◌, ◌<◌, ◌≡◌, ◌≢◌, ◌⊎◌, refl, ap, ◌∙◌, Bool, true, false, not, ◌&&◌,
  Option, none, some, List, [], ◌∷◌, ltb, ◌==◌, if◌then◌else◌, Bool-cases, inl, inr, update,
  update_lem, update-same, get_or, arith, all_below, all_below_sound,
}
use project_my_os.Idt.{
  Handler, excep_de, excep_nmi, excep_bp, excep_of, excep_bre, excep_io, excep_dna, excep_df,
  excep_cs, excep_itss, excep_seg_np, excep_sf, excep_gp, excep_pf, excep_fp, excep_ac, excep_mc,
  excep_sfp, undef_interrupt, keyboard_helper, rtc_helper, asm_linkage, IdtEntry, set_idt_entry,
  init_entry, plain_entry, init_loop, set_all, set_entries, idt_init, offset,
}

-- A gate type of the processor's manual.
abbrev pub gate_type : IdtEntry → ℕ
gate_type e = e.reserved3 + 2 * e.reserved2 + 4 * e.reserved1 + 8 * e.size + 16 * e.reserved0

-- What a list of assignments sets last for vector `j`.
or_else : Option Handler → Option Handler → Option Handler
or_else none h = h
or_else (some later) h = some later

last_for : List (ℕ × Handler) → ℕ → Option Handler
unfolding or_else
last_for [] j = none
last_for ((c, h) ∷ more) j = or_else (last_for more j) (if j == c then some h else none)

set_opt : (addr : Handler → ℕ) → Option Handler → IdtEntry → IdtEntry
set_opt addr none e = e
set_opt addr (some h) e = set_idt_entry e (addr h)

set_opt-first :
    (addr : Handler → ℕ) (later : Option Handler) (c j : ℕ) (h : Handler) (idt : ℕ → IdtEntry)
    → set_opt addr later (update idt c (set_idt_entry (idt c) (addr h)) j)
      ≡ set_opt addr (or_else later (if j == c then some h else none)) (idt j)
unfolding set_opt or_else set_idt_entry update
set_opt-first addr none c j h idt = elim (Bool-cases (j == c)) [
  | inl same ↦
      let e : c ≡ j = ground (arith, same) in
      rw same (ap (λ (v : ℕ). set_idt_entry (idt v) (addr h)) e)
  | inr other ↦ rw other
]
set_opt-first addr (some l) c j h idt = elim (Bool-cases (j == c)) [
  | inl same ↦
      let e : c ≡ j = ground (arith, same) in
      rw same (ap (λ (v : ℕ). set_idt_entry (idt v) (addr l)) e)
  | inr other ↦ rw other
]

set_all_lem :
    (addr : Handler → ℕ) (l : List (ℕ × Handler)) (idt : ℕ → IdtEntry) (j : ℕ)
    → set_all addr l idt j ≡ set_opt addr (last_for l j) (idt j)
unfolding set_all last_for set_opt
set_all_lem addr [] idt j = refl
set_all_lem addr ((c, h) ∷ more) idt j =
    set_all_lem addr more (update idt c (set_idt_entry (idt c) (addr h))) j
    ∙ set_opt-first addr (last_for more j) c j h idt

init_loop_lem :
    (addr : Handler → ℕ) (r c : ℕ) (idt : ℕ → IdtEntry) (j : ℕ)
    → init_loop addr r c idt j
      ≡ (if not (ltb j c) && ltb j (c + r) then init_entry addr j (idt j) else idt j)
unfolding init_loop
init_loop_lem addr zero c idt j = ground arith
init_loop_lem addr (suc r) c idt j = elim (Bool-cases (j == c)) [
  | inl same ↦
      let e : c ≡ j = ground (arith, same) in
      init_loop_lem addr r (c + 1) (update idt c (init_entry addr c (idt c))) j
      ∙ rw (e, update-same idt j (init_entry addr j (idt j))) (ground arith)
  | inr other ↦
      init_loop_lem addr r (c + 1) (update idt c (init_entry addr c (idt c))) j
      ∙ ground (arith, update_lem idt c (init_entry addr c (idt c)) j)
]

-- The handlers of the first vectors in order, as the table ends up.
abbrev in_order : List (Option Handler)
in_order =
    some excep_de
    ∷ some excep_df
    ∷ some excep_nmi
    ∷ some excep_bp
    ∷ some excep_of
    ∷ some excep_bre
    ∷ some excep_io
    ∷ some excep_dna
    ∷ some excep_df
    ∷ some excep_cs
    ∷ some excep_itss
    ∷ some excep_seg_np
    ∷ some excep_sf
    ∷ some excep_gp
    ∷ some excep_pf
    ∷ none
    ∷ some excep_fp
    ∷ some excep_ac
    ∷ some excep_mc
    ∷ some excep_sfp
    ∷ []

-- The handler of a vector: the exceptions in order, none for the rest of the processor's own
-- vectors, one for each device, one for system calls, and one for all others.
unfoldable pub handler_of : ℕ → Option Handler
handler_of j =
    if ltb j 32
    then get_or in_order j none
    else if j == 33
    then some keyboard_helper
    else if j == 40
    then some rtc_helper
    else if j == 128
    then some asm_linkage
    else some undef_interrupt

-- The same, without what the loop has set already.
handler_of_set : ℕ → Option Handler
handler_of_set j =
    if ltb j 32
    then get_or in_order j none
    else if j == 33
    then some keyboard_helper
    else if j == 40
    then some rtc_helper
    else if j == 128
    then some asm_linkage
    else none

Handler-discrete : Discrete Handler
Handler-discrete = hlevel

Option-discrete : Discrete (Option Handler)
Option-discrete = hlevel

as_bool {ℓ} : {A : Type ℓ} → Dec A → Bool
as_bool (yes a) = true
as_bool (no n) = false

as_bool_sound {ℓ} : {A : Type ℓ} (d : Dec A) → as_bool d ≡ true → A
unfolding as_bool
as_bool_sound (yes a) e = a
as_bool_sound (no n) e = absurd (cc e)

handlers_table :
    all_below 256 (λ j. as_bool (Option-discrete (last_for set_entries j) (handler_of_set j)))
    ≡ true
unfolding all_below as_bool last_for or_else handler_of_set Option-discrete Handler-discrete
handlers_table = refl

last_for_lem : (j : ℕ) → j < 256 → last_for set_entries j ≡ handler_of_set j
last_for_lem j h = as_bool_sound (Option-discrete (last_for set_entries j) (handler_of_set j)) (
    all_below_sound 256
      (λ (v : ℕ). as_bool (Option-discrete (last_for set_entries v) (handler_of_set v))) j
      handlers_table h)

-- An entry of the finished table.
entry_lem :
    (addr : Handler → ℕ) (idt : ℕ → IdtEntry) (j : ℕ)
    → j < 256
    → idt_init addr idt j ≡ set_opt addr (handler_of_set j) (init_entry addr j (idt j))
unfolding idt_init
entry_lem addr idt j h =
    set_all_lem addr set_entries (init_loop addr 256 0 idt) j
    ∙ rw (last_for_lem j h, init_loop_lem addr 256 0 idt j) (ground arith)

-- An assignment of a handler changes no other field.
set_opt-fields :
    (addr : Handler → ℕ) (o : Option Handler) (e : IdtEntry)
    → let e' = set_opt addr o e in
      (e'.present ≡ e.present)
      × (e'.seg_selector ≡ e.seg_selector)
      × (gate_type e' ≡ gate_type e)
      × (e'.dpl ≡ e.dpl)
unfolding set_opt set_idt_entry
set_opt-fields addr none e = (refl, refl, refl, refl)
set_opt-fields addr (some h) e = (refl, refl, refl, refl)

-- After IDT_init each of the 256 entries is present, selects the kernel's code segment, and is a
-- trap gate (type 15) for the processor's own 32 vectors and an interrupt gate (type 14) for the
-- others; only vector 0x80 can be called from user level, the others need level 0.
pub idt_init_lem :
    (addr : Handler → ℕ) (idt : ℕ → IdtEntry) (j : ℕ)
    → j < 256
    → let e = idt_init addr idt j in
      (e.present ≡ 1)
      × (e.seg_selector ≡ 16)
      × (gate_type e ≡ (if ltb j 32 then 15 else 14))
      × (e.dpl ≡ (if j == 128 then 3 else 0))
unfolding init_entry plain_entry set_idt_entry
idt_init_lem addr idt j h =
    let e = init_entry addr j (idt j) in
    let same = set_opt-fields addr (handler_of_set j) e in
    rw (entry_lem addr idt j h)
      (same.0 ∙ ground arith, same.1 ∙ ground arith, same.2 ∙ ground arith, same.3 ∙ ground arith)

set_opt-offset :
    (addr : Handler → ℕ) (h : Handler) (e : IdtEntry)
    → addr h < 2 ^ 32
    → offset (set_idt_entry e (addr h)) ≡ addr h
unfolding set_idt_entry
set_opt-offset addr h e small = omega arith

handler_cases :
    (j : ℕ) (h : Handler)
    → handler_of j ≡ some h
    → (handler_of_set j ≡ some h)
      ⊎ ((handler_of_set j ≡ none) × (h ≡ undef_interrupt) × (32 ≤ j) × (j ≢ 128))
unfolding handler_of handler_of_set
handler_cases j h at = elim (Bool-cases (ltb j 32)) [
  | inl low ↦ inl (rw low (rw low at at))
  | inr high ↦ elim (Bool-cases (j == 33)) [
    | inl k ↦ inl (ground arith)
    | inr k ↦ elim (Bool-cases (j == 40)) [
      | inl r ↦ inl (ground arith)
      | inr r ↦ elim (Bool-cases (j == 128)) [
        | inl c ↦ inl (ground arith)
        | inr c ↦ inr (ground arith, ground arith, ground arith, ground arith)
      ]
    ]
  ]
]

undef_offset :
    (addr : Handler → ℕ) (idt : ℕ → IdtEntry) (j : ℕ)
    → 32 ≤ j
    → j ≢ 128
    → addr undef_interrupt < 2 ^ 32
    → offset (init_entry addr j (idt j)) ≡ addr undef_interrupt
unfolding init_entry set_idt_entry plain_entry
undef_offset addr idt j h n small = ground arith

offset_at :
    (addr : Handler → ℕ) (idt : ℕ → IdtEntry) (j : ℕ) (h : Handler)
    → handler_of j ≡ some h
    → addr h < 2 ^ 32
    → offset (set_opt addr (handler_of_set j) (init_entry addr j (idt j))) ≡ addr h
unfolding set_opt
offset_at addr idt j h at small = elim (handler_cases j h at) [
  | inl set ↦ rw set (set_opt-offset addr h (init_entry addr j (idt j)) small)
  | inr loop ↦ rw (loop.0, loop.1) (undef_offset addr idt j (loop.2) (loop.3) (rw (← loop.1) small))
]

-- After IDT_init the entry of a vector holds the address of its handler, if that is a 32-bit
-- address. The handlers are: one for each exception but the reserved number 15, with the one for
-- double faults at number 1; those of the keyboard at 33, of the clock at 40 and of the system
-- calls at 128; and the one for undefined interrupts at every other number from 32 on.
pub idt_init-offset :
    (addr : Handler → ℕ) (idt : ℕ → IdtEntry) (j : ℕ) (h : Handler)
    → j < 256
    → handler_of j ≡ some h
    → addr h < 2 ^ 32
    → offset (idt_init addr idt j) ≡ addr h
unfolding handler_of handler_of_set
idt_init-offset addr idt j h below at small =
    rw (entry_lem addr idt j below) (offset_at addr idt j h at small)
