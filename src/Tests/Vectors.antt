-- ===== src/Tests/Vectors.antt =====
-- The interrupt table of student-distrib/idt.c on an empty table.
use project_my_os.Base.{ℕ, ◌≡◌, refl, codes, arith}
use project_my_os.Screen.{Screen}
use project_my_os.Idt.{
  Handler, excep_de, excep_db, excep_nmi, excep_bp, excep_of, excep_bre, excep_io, excep_dna,
  excep_df, excep_cs, excep_itss, excep_seg_np, excep_sf, excep_gp, excep_pf, excep_fp, excep_ac,
  excep_mc, excep_sfp, undef_interrupt, keyboard_helper, IdtEntry, idt_init, offset,
}
use project_my_os.Idt.Vectors.{gate_type, handler_of, idt_init_lem, idt_init-offset}
use project_my_os.Idt.Exceptions.{raise, Stops, ShowsWords, raise_lem}
use project_my_os.Tests.Display.{terminal}

abbrev empty_idt : ℕ → IdtEntry
empty_idt j = record {
  offset_15_00 = 0;
  seg_selector = 0;
  reserved4 = 0;
  reserved3 = 0;
  reserved2 = 0;
  reserved1 = 0;
  size = 0;
  reserved0 = 0;
  dpl = 0;
  present = 0;
  offset_31_16 = 0;
}

-- Every routine at one address.
abbrev at_4MB : Handler → ℕ
at_4MB h = 0x400123

idt_init_lem_example :
    ((idt_init at_4MB empty_idt 128).present ≡ 1)
    × ((idt_init at_4MB empty_idt 128).seg_selector ≡ 16)
    × (gate_type (idt_init at_4MB empty_idt 128) ≡ 14)
    × ((idt_init at_4MB empty_idt 128).dpl ≡ 3)
idt_init_lem_example = idt_init_lem at_4MB empty_idt 128 (omega arith)

idt_init-offset_example : offset (idt_init at_4MB empty_idt 33) ≡ 0x400123
unfolding handler_of
idt_init-offset_example =
    idt_init-offset at_4MB empty_idt 33 keyboard_helper (omega arith) refl (omega arith)

raise_lem_example :
    let on = λ (h : Handler). raise 0x10 0x246 h terminal.screen in
    Stops (on excep_de) terminal.screen (codes "Divide error exception!\n")
    × Stops (on excep_db) terminal.screen (codes "Debug exception!\n")
    × Stops (on excep_nmi) terminal.screen (codes "Non-maskable interrupt exception!\n")
    × Stops (on excep_bp) terminal.screen (codes "Break-point exception!\n")
    × Stops (on excep_of) terminal.screen (codes "Overflow exception!\n")
    × Stops (on excep_bre) terminal.screen (codes "Bound range exceeded exception!\n")
    × Stops (on excep_io) terminal.screen (codes "Invalid opcode exception!\n")
    × Stops (on excep_dna) terminal.screen (codes "Device not available exception!\n")
    × Stops (on excep_df) terminal.screen (codes "Double fault exception!\n")
    × Stops (on excep_cs) terminal.screen (codes "Coprocessor segment exception!\n")
    × Stops (on excep_itss) terminal.screen (codes "Invalid TSS exception!\n")
    × Stops (on excep_seg_np) terminal.screen (codes "Segment not present exception!\n")
    × Stops (on excep_sf) terminal.screen (codes "Stack fault exception!\n")
    × Stops (on excep_pf) terminal.screen (codes "Page falut exception!\n")
    × Stops (on excep_fp) terminal.screen (codes "FLoating point exception!\n")
    × Stops (on excep_ac) terminal.screen (codes "Alignment check exception!\n")
    × Stops (on excep_mc) terminal.screen (codes "Machine check exception!\n")
    × Stops (on excep_sfp) terminal.screen (codes "SIMD floating-point exception!\n")
    × Stops (on undef_interrupt) terminal.screen (codes "Undefined interruption!\n")
    × (t : Screen) × ShowsWords terminal.screen t 0x10 0x246
    × Stops (on excep_gp) t (codes "General protection exception!\n")
raise_lem_example = raise_lem 0x10 0x246 terminal.screen (omega arith) (omega arith)
