-- ===== src/Boot/Messages.antt =====
-- The messages of the entry, in student-distrib/kernel.c: they are printed whatever the boot loader
-- has left, if its command line and its memory map end.
use project_my_os.Base.{
  ℕ, zero, suc, ◌+◌, ◌%◌, ◌^◌, ◌<◌, ◌≡◌, refl, Bool, true, false, Option, some, List, [], ◌∷◌, ltb,
  ◌>>=◌, Bytes, IsBytes, from, read8, read32, arith,
}
use project_my_os.Str.{IsString}
use project_my_os.Screen.{Screen}
use project_my_os.Printf.{Arg, word, text, plain}
use project_my_os.Printf.Total.{ArePrintable, args_after, conversions_fit, printf-returns}
use project_my_os.Boot.{
  MultibootInfo, multiboot_info, check_flag, say, when, bytes_loop, print_module, modules_loop,
  mmap_loop, print_mmap, print_first, print_second,
}

-- The step leaves a screen.
abbrev pub Prints : Option Screen → Type 0
Prints o = (t : Screen) × (o ≡ some t)

read32-small : (m : Bytes) (a : ℕ) → IsBytes m → read32 m a < 2 ^ 32
unfolding read32 read8
read32-small m a h =
    omega (arith, h (a % 2 ^ 32), h ((a + 1) % 2 ^ 32), h ((a + 2) % 2 ^ 32), h ((a + 3) % 2 ^ 32))

-- Arguments that can be printed, one after the other.
data AreFine : List Arg → Type 0 where
  no_more : AreFine []
  a_word : {w : ℕ} {args : List Arg} → w < 2 ^ 32 → AreFine args → AreFine (word w ∷ args)
  a_text :
      {p : Bytes} {args : List Arg} {n : ℕ} → IsString p n → AreFine args → AreFine (text p ∷ args)

fine-ArePrintable : (args : List Arg) → AreFine args → ArePrintable args
fine-ArePrintable _ no_more = tt
fine-ArePrintable _ (a_word h rest) = (h, fine-ArePrintable _ rest)
fine-ArePrintable _ (a_text {n} v rest) = ((n, v), fine-ArePrintable _ rest)

say-Prints :
    (s : Screen) (format : List ℕ) (args : List Arg)
    → AreFine args
    → conversions_fit format plain args ≡ true
    → Prints (say s format args)
say-Prints s format args p h =
    let (t, e) = printf-returns s format args (fine-ArePrintable args p) h in
    (t, rw (e, ◌>>=◌) refl)

Prints-then :
    (o : Option Screen) (f : Screen → Option Screen)
    → Prints o
    → ((t : Screen) → Prints (f t))
    → Prints (o >>= f)
Prints-then o f (t, e) h = rw (e, ◌>>=◌) (h t)

when-Prints :
    (b : Bool) (print : Screen → Option Screen) (s : Screen)
    → (b ≡ true → Prints (print s))
    → Prints (when b print s)
unfolding when
when-Prints true print s h = h refl
when-Prints false print s h = (s, refl)

bytes_loop-Prints :
    (r : ℕ) (ram : Bytes) (start i : ℕ) (s : Screen)
    → IsBytes ram
    → Prints (bytes_loop r ram start i s)
unfolding bytes_loop conversions_fit args_after read8
bytes_loop-Prints zero ram start i s h = (s, refl)
bytes_loop-Prints (suc r) ram start i s h =
    let byte = h ((start + i) % 2 ^ 32) in
    Prints-then _ _ (say-Prints s _ _ (a_word (ground (arith, byte)) no_more) refl)
      (λ t. bytes_loop-Prints r ram start (i + 1) t h)

print_module-Prints :
    (ram : Bytes) (at n : ℕ) (s : Screen)
    → IsBytes ram
    → n < 2 ^ 32
    → Prints (print_module ram at n s)
unfolding print_module conversions_fit args_after
print_module-Prints ram at n s h small =
    Prints-then _ _
      (say-Prints s _ _ (a_word (small) (a_word (read32-small ram at h) no_more)) refl)
      (λ s1.
        Prints-then _ _
          (say-Prints s1 _ _ (a_word (small) (a_word (read32-small ram (at + 4) h) no_more)) refl)
          (λ s2. Prints-then _ _ (say-Prints s2 _ _ no_more refl) (λ s3.
            Prints-then _ _ (bytes_loop-Prints 16 ram (read32 ram at) 0 s3 h)
              (λ s4. say-Prints s4 _ _ no_more refl))))

modules_loop-Prints :
    (r : ℕ) (ram : Bytes) (at n : ℕ) (s : Screen)
    → IsBytes ram
    → r + n < 2 ^ 32
    → Prints (modules_loop r ram at n s)
unfolding modules_loop
modules_loop-Prints zero ram at n s h small = (s, refl)
modules_loop-Prints (suc r) ram at n s h small =
    Prints-then _ _ (print_module-Prints ram at n s h (omega arith))
      (λ t. modules_loop-Prints r ram (at + 16) (n + 1) t h (omega arith))

-- A memory map of `n` regions from address `mmap` up to `end`: each region says how far it is to
-- the next.
pub data IsMemoryMap (ram : Bytes) (end : ℕ) : ℕ → ℕ → Type 0 where
  at_end : {mmap : ℕ} → ltb mmap end ≡ false → IsMemoryMap ram end mmap 0
  region :
      {mmap n : ℕ}
      → ltb mmap end ≡ true
      → IsMemoryMap ram end ((mmap + read32 ram mmap + 4) % 2 ^ 32) n
      → IsMemoryMap ram end mmap (suc n)

mmap_loop-Prints :
    (f : ℕ) (ram : Bytes) (mmap end n : ℕ) (s : Screen)
    → IsBytes ram
    → IsMemoryMap ram end mmap n
    → n < f
    → Prints (mmap_loop f ram mmap end s)
unfolding mmap_loop conversions_fit args_after
mmap_loop-Prints zero ram mmap end n s h map enough = absurd (omega arith)
mmap_loop-Prints (suc f) ram mmap end zero s h (at_end over) enough = (s, rw (over, mmap_loop) refl)
mmap_loop-Prints (suc f) ram mmap end (suc n) s h (region inside rest) enough =
    rw (inside, mmap_loop)
      (Prints-then _ _
        (say-Prints s _ _
          (a_word (read32-small ram mmap h) (
            a_word (read32-small ram (mmap + 8) h) (
              a_word (read32-small ram (mmap + 4) h) (
                a_word (read32-small ram (mmap + 20) h) (
                  a_word (read32-small ram (mmap + 16) h)
                    (a_word (read32-small ram (mmap + 12) h) no_more))))))
          refl)
        (λ t. mmap_loop-Prints f ram _ end n t h rest (omega arith)))

-- What the entry reads: bytes; a command line that ends, if there is one; and a memory map that
-- ends, if there is one.
pub record IsMultiboot (ram : Bytes) (mbi : MultibootInfo) : Type 0 where
  pub bytes : IsBytes ram
  pub line : check_flag mbi.flags 2 ≡ true → (n : ℕ) × IsString (from ram mbi.cmdline) n
  pub map :
      check_flag mbi.flags 6 ≡ true
      → (n : ℕ) × IsMemoryMap ram ((mbi.mmap_addr + mbi.mmap_length) % 2 ^ 32) mbi.mmap_addr n
        × (n < 2 ^ 32)

pub print_first-Prints :
    (ram : Bytes) (addr : ℕ) (s : Screen)
    → IsMultiboot ram (multiboot_info ram addr)
    → Prints (print_first ram (multiboot_info ram addr) s)
unfolding print_first multiboot_info conversions_fit args_after
print_first-Prints ram addr s v =
    let small : (a : ℕ) → read32 ram a < 2 ^ 32 = λ a. read32-small ram a v.bytes in
    Prints-then _ _ (say-Prints s _ _ (a_word (small addr) no_more) refl) (λ s1.
      Prints-then _ _
        (when-Prints _ _ s1 (λ e.
          say-Prints s1 _ _ (a_word (small (addr + 4)) (a_word (small (addr + 8)) no_more)) refl))
        (λ s2.
          Prints-then _ _
            (when-Prints _ _ s2 (λ e. say-Prints s2 _ _ (a_word (small (addr + 12)) no_more) refl))
            (λ s3.
              Prints-then _ _
                (when-Prints _ _ s3 (λ e. say-Prints s3 _ _ (a_text (v.line e).1 no_more) refl))
                (λ s4. when-Prints _ _ s4 (λ e.
                  modules_loop-Prints (read32 ram (addr + 20)) ram _ 0 s4 v.bytes
                    (omega (arith, small (addr + 20))))))))

pub print_second-Prints :
    (ram : Bytes) (addr : ℕ) (s : Screen)
    → IsMultiboot ram (multiboot_info ram addr)
    → Prints (print_second ram (multiboot_info ram addr) s)
unfolding print_second print_mmap multiboot_info conversions_fit args_after
print_second-Prints ram addr s v =
    let small : (a : ℕ) → read32 ram a < 2 ^ 32 = λ a. read32-small ram a v.bytes in
    Prints-then _ _
      (when-Prints _ _ s (λ e.
        say-Prints s _ _
          (a_word (small (addr + 28)) (
            a_word (small (addr + 32))
              (a_word (small (addr + 36)) (a_word (small (addr + 40)) no_more))))
          refl))
      (λ s1. when-Prints _ _ s1 (λ e.
        Prints-then _ _
          (say-Prints s1 _ _ (a_word (small (addr + 48)) (a_word (small (addr + 44)) no_more)) refl)
          (λ s2.
            let (n, map, enough) = v.map e in
            mmap_loop-Prints (2 ^ 32) ram _ _ n s2 v.bytes map enough)))
