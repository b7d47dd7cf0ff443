-- ===== src/Idt.antt =====
-- The interrupt descriptor table of student-distrib/idt.c. The entries are those of
-- student-distrib/x86_desc.h, bit field by bit field.
pub mod Vectors
pub mod Exceptions
use project_my_os.Base.{
  ℕ, zero, suc, ◌+◌, ◌*◌, ◌/◌, ◌%◌, List, [], ◌∷◌, leb, ◌==◌, if◌then◌else◌, update,
}

-- What the routines of handler.S call.
pub data Handler : Type 0 where
  excep_de excep_db excep_nmi excep_bp excep_of excep_bre excep_io excep_dna excep_df : Handler
  excep_cs excep_itss excep_seg_np excep_sf excep_gp excep_pf : Handler
  excep_fp excep_ac excep_mc excep_sfp : Handler
  undef_interrupt keyboard_helper rtc_helper asm_linkage : Handler

-- `idt_desc_t`
pub record IdtEntry : Type 0 where
  pub offset_15_00 : ℕ
  pub seg_selector : ℕ
  pub reserved4 : ℕ
  pub reserved3 : ℕ
  pub reserved2 : ℕ
  pub reserved1 : ℕ
  pub size : ℕ
  pub reserved0 : ℕ
  pub dpl : ℕ
  pub present : ℕ
  pub offset_31_16 : ℕ

abbrev pub kernel_cs : ℕ
kernel_cs = 0x0010

abbrev pub num_vec : ℕ
num_vec = 256

abbrev pub system_defined_idt_entries_number : ℕ
system_defined_idt_entries_number = 32

abbrev pub system_call_number : ℕ
system_call_number = 0x80

-- `SET_IDT_ENTRY`, with the address of the routine.
unfoldable pub set_idt_entry : IdtEntry → ℕ → IdtEntry
set_idt_entry e handler = record e {
  offset_31_16 = handler / 65536 % 65536;
  offset_15_00 = handler % 65536;
}

-- The assignments that every entry gets.
unfoldable pub plain_entry : IdtEntry → IdtEntry
plain_entry e = record {
  offset_15_00 = e.offset_15_00;
  seg_selector = kernel_cs;
  reserved4 = 0;
  reserved3 = 1;
  reserved2 = 1;
  reserved1 = 1;
  size = 1;
  reserved0 = 0;
  dpl = 0;
  present = 1;
  offset_31_16 = e.offset_31_16;
}

-- One round of the loop, on entry `c`.
unfoldable pub init_entry : (addr : Handler → ℕ) → ℕ → IdtEntry → IdtEntry
unfolding plain_entry set_idt_entry
init_entry addr c e =
    let e1 =
      if leb system_defined_idt_entries_number c
      then set_idt_entry (record (plain_entry e) { reserved3 = 0 }) (addr undef_interrupt)
      else plain_entry e in
    if c == system_call_number then record e1 { dpl = 3 } else e1

-- `while (c < NUM_VEC)`, `r` rounds left.
unfoldable pub init_loop : (addr : Handler → ℕ) (r c : ℕ) → (ℕ → IdtEntry) → ℕ → IdtEntry
unfolding init_entry update
init_loop addr zero c idt = idt
init_loop addr (suc r) c idt = init_loop addr r (c + 1) (update idt c (init_entry addr c (idt c)))

-- The entries set one by one behind the loop. Vector 1 gets the handler of double faults, and
-- vector 15 none.
abbrev pub set_entries : List (ℕ × Handler)
set_entries =
    (0, excep_de)
    ∷ (1, excep_df)
    ∷ (2, excep_nmi)
    ∷ (3, excep_bp)
    ∷ (4, excep_of)
    ∷ (5, excep_bre)
    ∷ (6, excep_io)
    ∷ (7, excep_dna)
    ∷ (8, excep_df)
    ∷ (9, excep_cs)
    ∷ (10, excep_itss)
    ∷ (11, excep_seg_np)
    ∷ (12, excep_sf)
    ∷ (13, excep_gp)
    ∷ (14, excep_pf)
    ∷ (16, excep_fp)
    ∷ (17, excep_ac)
    ∷ (18, excep_mc)
    ∷ (19, excep_sfp)
    ∷ (33, keyboard_helper)
    ∷ (40, rtc_helper)
    ∷ (system_call_number, asm_linkage)
    ∷ []

unfoldable pub set_all : (addr : Handler → ℕ) → List (ℕ × Handler) → (ℕ → IdtEntry) → ℕ → IdtEntry
unfolding set_idt_entry update
set_all addr [] idt = idt
set_all addr ((c, h) ∷ more) idt = set_all addr more (update idt c (set_idt_entry (idt c) (addr h)))

-- `IDT_init`; `addr` is where the linker puts the routines.
unfoldable pub idt_init : (addr : Handler → ℕ) → (ℕ → IdtEntry) → ℕ → IdtEntry
unfolding init_loop set_all
idt_init addr idt = set_all addr set_entries (init_loop addr num_vec 0 idt)

-- The address in an entry, as the processor puts it together.
abbrev pub offset : IdtEntry → ℕ
offset e = e.offset_15_00 + 65536 * e.offset_31_16
