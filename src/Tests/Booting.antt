-- ===== src/Tests/Booting.antt =====
-- The entry of student-distrib/kernel.c and printf of student-distrib/lib.c on what a boot loader
-- leaves: a command line, and a memory map of one region.
use project_my_os.Base.{
  ◌-◌, ◌≡◌, refl, false, ltb, ◌==◌, if◌then◌else◌, some, [], ◌∷◌, Bytes, codes, arith,
}
use project_my_os.Str.{IsString, bytes_of}
use project_my_os.Screen.{Screen}
use project_my_os.Printf.{word, text, printf}
use project_my_os.Printf.Total.{args_after, conversions_fit, printf-returns}
use project_my_os.Boot.Segments.{SegDesc}
use project_my_os.Boot.Entry.{Machine, Platform}
use project_my_os.Tests.Display.{row_end}
use project_my_os.Tests.Machine.{layout, kernel}

abbrev quiet : Bytes
quiet = bytes_of (codes "quiet")

quiet-IsString : IsString quiet 5
quiet-IsString = record { nul = refl; chars = λ i h. ground arith; fits = omega arith }

printf-returns_example :
    (t : Screen) × (printf row_end (codes "%s: 0x%#x\n") (text quiet ∷ word 391 ∷ [])
      ≡ some (t, 10))
unfolding conversions_fit args_after
printf-returns_example =
    printf-returns row_end (codes "%s: 0x%#x\n") (text quiet ∷ word 391 ∷ [])
      ((5, quiet-IsString), (omega arith, tt)) refl

-- The structure at 0 with flags 2 and 6, the command line at 64, the list of modules at 32 with one
-- from 160 to 200, the map of 24 bytes at 128, whose region says that 20 bytes follow.
abbrev loaded : Bytes
loaded a =
    if a == 0
    then 68
    else if a == 16
    then 64
    else if a == 24
    then 32
    else if a == 32
    then 160
    else if a == 36
    then 200
    else if a == 44
    then 24
    else if a == 48
    then 128
    else if ltb a 64
    then 0
    else if ltb a 128
    then quiet (a - 64)
    else if a == 128
    then 20
    else 0

abbrev platform : Platform
platform = record {
  layout = layout;
  ldt = 0x413000;
  ldt_size = 71;
  tss = 0x414000;
  tss_size = 104;
  prev_b = 2;
  prev_a = 0x26;
  esp = 0x7FE100;
  ebp = 0x7FE180;
  stack = bytes_of [];
  behind = bytes_of [];
}

abbrev no_desc : SegDesc
no_desc = record {
  seg_lim_15_00 = 0;
  base_15_00 = 0;
  base_23_16 = 0;
  seg_type = 0;
  sys = 0;
  dpl = 0;
  present = 0;
  seg_lim_19_16 = 0;
  avail = 0;
  reserved = 0;
  opsize = 0;
  granularity = 0;
  base_31_24 = 0;
}

-- Before the first process, with that memory.
abbrev machine : Machine
machine = record {
  kernel = record kernel {
    counter = 0;
    terminal = record kernel.terminal { fs = record kernel.terminal.fs { ram = loaded } };
  };
  ldt_desc = no_desc;
  tss_desc = no_desc;
  tss_ss0 = 0;
  tss_ldt = 0;
  interrupts = false;
}
