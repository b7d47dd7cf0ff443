-- ===== src/Idt/Exceptions.antt =====
-- The exception handlers of student-distrib/idt.c: each turns interrupts off, prints a message and
-- spins.
use project_my_os.Base.{
  ℕ, ◌≤◌, Bytes, slice_of, ◌^◌, ◌<◌, ◌≡◌, ◌≢◌, refl, true, false, Bool, Option, none, some, List,
  [], ◌∷◌, ◌>>=◌, codes, ap, some-injective,
}
use project_my_os.Screen.{Screen, put_all}
use project_my_os.Printf.{word, printf}
use project_my_os.Printf.Number.{no_percent, printf_text, printf_hexadecimal}
use project_my_os.Str.Decimal.{parse}
use project_my_os.Idt.{
  Handler, excep_de, excep_db, excep_nmi, excep_bp, excep_of, excep_bre, excep_io, excep_dna,
  excep_df, excep_cs, excep_itss, excep_seg_np, excep_sf, excep_gp, excep_pf, excep_fp, excep_ac,
  excep_mc, excep_sfp, undef_interrupt, keyboard_helper, rtc_helper, asm_linkage,
}

-- The machine in its endless loop: nothing runs any more once interrupts are off.
pub record Spinning : Type 0 where
  pub interrupts : Bool
  pub screen : Screen

-- The text that a handler prints; `none` for the device handlers and the system calls.
unfoldable pub exception_text : Handler → Option (List ℕ)
exception_text excep_de = some (codes "Divide error exception!\n")
exception_text excep_db = some (codes "Debug exception!\n")
exception_text excep_nmi = some (codes "Non-maskable interrupt exception!\n")
exception_text excep_bp = some (codes "Break-point exception!\n")
exception_text excep_of = some (codes "Overflow exception!\n")
exception_text excep_bre = some (codes "Bound range exceeded exception!\n")
exception_text excep_io = some (codes "Invalid opcode exception!\n")
exception_text excep_dna = some (codes "Device not available exception!\n")
exception_text excep_df = some (codes "Double fault exception!\n")
exception_text excep_cs = some (codes "Coprocessor segment exception!\n")
exception_text excep_itss = some (codes "Invalid TSS exception!\n")
exception_text excep_seg_np = some (codes "Segment not present exception!\n")
exception_text excep_sf = some (codes "Stack fault exception!\n")
exception_text excep_gp = some (codes "General protection exception!\n")
exception_text excep_pf = some (codes "Page falut exception!\n")
exception_text excep_fp = some (codes "FLoating point exception!\n")
exception_text excep_ac = some (codes "Alignment check exception!\n")
exception_text excep_mc = some (codes "Machine check exception!\n")
exception_text excep_sfp = some (codes "SIMD floating-point exception!\n")
exception_text undef_interrupt = some (codes "Undefined interruption!\n")
exception_text keyboard_helper = none
exception_text rtc_helper = none
exception_text asm_linkage = none

-- `cli(); printf(text); while(1);`
unfoldable pub report : Screen → List ℕ → Option Spinning
report s text =
    printf s text [] >>= λ printed. some (record { interrupts = false; screen = printed.0 })

-- `excep_GP` first prints two words off the stack in hexadecimal.
unfoldable pub excep_gp_handler : (error_code error_code2 : ℕ) → Screen → List ℕ → Option Spinning
unfolding report
excep_gp_handler error_code error_code2 s text =
    printf s (codes "error_code:%x\n") (word error_code ∷ []) >>= λ first.
    printf first.0 (codes "error_code:%x") (word error_code2 ∷ []) >>= λ second.
    report second.0 text

-- What a handler does on this screen; `none` for those that are no exception handlers.
unfoldable pub raise : (error_code error_code2 : ℕ) → Handler → Screen → Option Spinning
unfolding exception_text report excep_gp_handler
raise error_code error_code2 excep_gp s =
    exception_text excep_gp >>= excep_gp_handler error_code error_code2 s
raise error_code error_code2 h s = exception_text h >>= report s

plain_if_some : Option (List ℕ) → Bool
unfolding no_percent
plain_if_some none = true
plain_if_some (some text) = no_percent text

-- Every message is plain text.
exception_text-plain : (h : Handler) → plain_if_some (exception_text h) ≡ true
unfolding exception_text plain_if_some
exception_text-plain excep_de = refl
exception_text-plain h = refl

report_lem :
    (s : Screen) (o : Option (List ℕ)) (text : List ℕ)
    → plain_if_some o ≡ true
    → o ≡ some text
    → (o >>= report s) ≡ some (record { interrupts = false; screen = put_all s text })
unfolding report plain_if_some
report_lem s none text plain e = cc
report_lem s (some l) text plain e =
    rw (printf_text s l plain, ◌>>=◌)
      (ap (λ (t : List ℕ). some (record { interrupts = false; screen = put_all s t }))
        (some-injective l text e))

other_raise :
    (error_code error_code2 : ℕ) (h : Handler) (s : Screen) (text : List ℕ)
    → exception_text h ≡ some text
    → h ≢ excep_gp
    → raise error_code error_code2 h s
      ≡ some (record { interrupts = false; screen = put_all s text })
unfolding raise
other_raise error_code error_code2 excep_gp s text at n = absurd (n refl)
other_raise error_code error_code2 h s text at n =
    report_lem s (exception_text h) text (exception_text-plain h) at

-- The handler turns interrupts off, prints this text on this screen, and spins.
abbrev pub Stops : Option Spinning → Screen → List ℕ → Type 0
Stops o s text = o ≡ some (record { interrupts = false; screen = put_all s text })

-- The screen `t` after `s` shows a line with the hexadecimal numeral of one word and the beginning of
-- one with that of the other.
pub record ShowsWords (s t : Screen) (word1 word2 : ℕ) : Type 0 where
  pub digits1 : Bytes
  pub length1 : ℕ
  pub digits2 : Bytes
  pub length2 : ℕ
  pub value1 : parse 16 digits1 length1 ≡ word1
  pub value2 : parse 16 digits2 length2 ≡ word2
  pub small1 : length1 ≤ 32
  pub small2 : length2 ≤ 32
  pub shown :
      t
      ≡ put_all
          (put_all
            (put_all
              (put_all (put_all s (codes "error_code:")) (slice_of digits1 0 length1))
              (codes "\n"))
            (codes "error_code:"))
          (slice_of digits2 0 length2)

gp_raise :
    (error_code error_code2 : ℕ) (s : Screen)
    → error_code < 2 ^ 32
    → error_code2 < 2 ^ 32
    → (t : Screen) × ShowsWords s t error_code error_code2
      × Stops (raise error_code error_code2 excep_gp s) t (codes "General protection exception!\n")
unfolding raise excep_gp_handler exception_text report no_percent put_all
gp_raise error_code error_code2 s h h2 =
    let (out, n, e, small, value) =
      printf_hexadecimal s (codes "error_code:") (codes "\n") error_code refl refl h in
    let t : Screen =
      put_all (put_all (put_all s (codes "error_code:")) (slice_of out 0 n)) (codes "\n") in
    let (out2, n2, e2, small2, value2) =
      printf_hexadecimal t (codes "error_code:") [] error_code2 refl refl h2 in
    let u : Screen = put_all (put_all t (codes "error_code:")) (slice_of out2 0 n2) in
    (
      u,
      record {
        digits1 = out;
        length1 = n;
        digits2 = out2;
        length2 = n2;
        value1 = value;
        value2 = value2;
        small1 = small;
        small2 = small2;
        shown = refl;
      },
      rw (e, ◌>>=◌, e2, ◌>>=◌, printf_text u (codes "General protection exception!\n") refl) refl,
    )

-- Every exception, and an undefined interrupt, turns interrupts off and prints exactly its message,
-- each character once and in order; a general protection fault prints the two words, which are 32-bit
-- words, as hexadecimal numerals before it, the others print nothing else.
pub raise_lem :
    (error_code error_code2 : ℕ) (s : Screen)
    → error_code < 2 ^ 32
    → error_code2 < 2 ^ 32
    → let on = λ (h : Handler). raise error_code error_code2 h s in
      Stops (on excep_de) s (codes "Divide error exception!\n")
      × Stops (on excep_db) s (codes "Debug exception!\n")
      × Stops (on excep_nmi) s (codes "Non-maskable interrupt exception!\n")
      × Stops (on excep_bp) s (codes "Break-point exception!\n")
      × Stops (on excep_of) s (codes "Overflow exception!\n")
      × Stops (on excep_bre) s (codes "Bound range exceeded exception!\n")
      × Stops (on excep_io) s (codes "Invalid opcode exception!\n")
      × Stops (on excep_dna) s (codes "Device not available exception!\n")
      × Stops (on excep_df) s (codes "Double fault exception!\n")
      × Stops (on excep_cs) s (codes "Coprocessor segment exception!\n")
      × Stops (on excep_itss) s (codes "Invalid TSS exception!\n")
      × Stops (on excep_seg_np) s (codes "Segment not present exception!\n")
      × Stops (on excep_sf) s (codes "Stack fault exception!\n")
      × Stops (on excep_pf) s (codes "Page falut exception!\n")
      × Stops (on excep_fp) s (codes "FLoating point exception!\n")
      × Stops (on excep_ac) s (codes "Alignment check exception!\n")
      × Stops (on excep_mc) s (codes "Machine check exception!\n")
      × Stops (on excep_sfp) s (codes "SIMD floating-point exception!\n")
      × Stops (on undef_interrupt) s (codes "Undefined interruption!\n")
      × (t : Screen) × ShowsWords s t error_code error_code2
      × Stops (on excep_gp) t (codes "General protection exception!\n")
unfolding exception_text
raise_lem error_code error_code2 s h h2 =
    let other : (g : Handler) (text : List ℕ)
        → exception_text g ≡ some text
        → g ≢ excep_gp
        → Stops (raise error_code error_code2 g s) s text =
      λ g text e n. other_raise error_code error_code2 g s text e n in
    let (t, words, stops) = gp_raise error_code error_code2 s h h2 in
    (
      other excep_de _ refl (λ e. cc),
      other excep_db _ refl (λ e. cc),
      other excep_nmi _ refl (λ e. cc),
      other excep_bp _ refl (λ e. cc),
      other excep_of _ refl (λ e. cc),
      other excep_bre _ refl (λ e. cc),
      other excep_io _ refl (λ e. cc),
      other excep_dna _ refl (λ e. cc),
      other excep_df _ refl (λ e. cc),
      other excep_cs _ refl (λ e. cc),
      other excep_itss _ refl (λ e. cc),
      other excep_seg_np _ refl (λ e. cc),
      other excep_sf _ refl (λ e. cc),
      other excep_pf _ refl (λ e. cc),
      other excep_fp _ refl (λ e. cc),
      other excep_ac _ refl (λ e. cc),
      other excep_mc _ refl (λ e. cc),
      other excep_sfp _ refl (λ e. cc),
      other undef_interrupt _ refl (λ e. cc),
      t,
      words,
      stops,
    )
