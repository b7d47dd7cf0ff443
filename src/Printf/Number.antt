-- ===== src/Printf/Number.antt =====
-- What printf of student-distrib/lib.c prints for plain text and for a number.
use project_my_os.Base.{
  ℕ, ◌^◌, ◌≤◌, ◌<◌, ◌≡◌, refl, Bool, true, false, not, ◌&&◌, some, List, [], ◌∷◌, ◌++◌, ◌==◌, ◌>>=◌,
  Bytes, length, slice_of, arith, ap, ◌∙◌,
}
use project_my_os.Str.Decimal.{parse, parse-itoa}
use project_my_os.Screen.{Screen, put_all, putc}
use project_my_os.Screen.Print.{puts_lem}
use project_my_os.Printf.{Arg, word, plain, empty_buf, print_number, convert, printf_loop, printf}

-- A test that a text has no `%`.
unfoldable pub no_percent : List ℕ → Bool
no_percent [] = true
no_percent (c ∷ cs) = not (c == b'%') && no_percent cs

-- Text without `%` is printed as it is, whatever follows it.
printf_loop-text :
    (s : Screen) (l rest : List ℕ) (args : List Arg)
    → no_percent l ≡ true
    → printf_loop s (l ++ rest) plain args ≡ printf_loop (put_all s l) rest plain args
unfolding printf_loop put_all no_percent
printf_loop-text s [] rest args h = refl
printf_loop-text s (c ∷ cs) rest args h =
    let here : (c == b'%') ≡ false = ground arith in
    rw (here, printf_loop) (printf_loop-text (putc s c) cs rest args (ground arith))

printf_loop-rest :
    (s : Screen) (l : List ℕ) (args : List Arg)
    → no_percent l ≡ true
    → printf_loop s l plain args ≡ some (put_all s l)
unfolding printf_loop put_all no_percent
printf_loop-rest s [] args h = refl
printf_loop-rest s (c ∷ cs) args h =
    let here : (c == b'%') ≡ false = ground arith in
    rw (here, printf_loop) (printf_loop-rest (putc s c) cs args (ground arith))

-- A text without `%` is printed as it is.
pub printf_text :
    (s : Screen) (l : List ℕ) → no_percent l ≡ true → printf s l [] ≡ some (put_all s l, length l)
unfolding printf
printf_text s l h = rw (printf_loop-rest s l [] h, ◌>>=◌)

-- `%x` without the alternate form.
percent_x :
    (s t : Screen) (w : ℕ) (rest : List ℕ)
    → print_number s w 16 ≡ some t
    → printf_loop s (b'%' ∷ b'x' ∷ rest) plain (word w ∷ []) ≡ printf_loop t rest plain []
unfolding printf_loop convert
percent_x s t w rest e = rw (e, ◌>>=◌)

percent_u :
    (s t : Screen) (w : ℕ) (rest : List ℕ)
    → print_number s w 10 ≡ some t
    → printf_loop s (b'%' ∷ b'u' ∷ rest) plain (word w ∷ []) ≡ printf_loop t rest plain []
unfolding printf_loop convert
percent_u s t w rest e = rw (e, ◌>>=◌)

print_number_lem :
    (s : Screen) (w radix : ℕ)
    → 2 ≤ radix
    → radix ≤ 36
    → w < 2 ^ 32
    → (out : Bytes) × (n : ℕ) × (print_number s w radix ≡ some (put_all s (slice_of out 0 n)))
      × (n ≤ 32)
      × (parse radix out n ≡ w)
unfolding print_number
print_number_lem s w radix low high h =
    let (out, n, e, v, small, value) = parse-itoa radix low high w empty_buf h in
    (out, n, rw (e, ◌>>=◌, puts_lem s out n v), small, value)

-- `printf` of a text with one `%u` in it prints the text before it, then a decimal numeral of at
-- most 32 characters that reads back as the argument, then the text behind it, for every 32-bit
-- argument.
pub printf_number :
    (s : Screen) (before after : List ℕ) (w : ℕ)
    → no_percent before ≡ true
    → no_percent after ≡ true
    → w < 2 ^ 32
    → let format = before ++ (b'%' ∷ b'u' ∷ after) in
      (out : Bytes) × (n : ℕ) × (printf s format (word w ∷ [])
        ≡ some (put_all (put_all (put_all s before) (slice_of out 0 n)) after, length format))
      × (n ≤ 32)
      × (parse 10 out n ≡ w)
unfolding printf
printf_number s before after w hb ha h =
    let (out, n, e, small, value) =
      print_number_lem (put_all s before) w 10 (omega arith) (omega arith) h in
    (
      out,
      n,
      ap (λ o. o >>= λ t. some (t, length (before ++ (b'%' ∷ b'u' ∷ after))))
          (printf_loop-text s before (b'%' ∷ b'u' ∷ after) (word w ∷ []) hb
            ∙ percent_u (put_all s before) (put_all (put_all s before) (slice_of out 0 n)) w after e
            ∙ printf_loop-rest (put_all (put_all s before) (slice_of out 0 n)) after [] ha),
      small,
      value,
    )

-- The same for one `%x` in a text, and a hexadecimal numeral.
pub printf_hexadecimal :
    (s : Screen) (before after : List ℕ) (w : ℕ)
    → no_percent before ≡ true
    → no_percent after ≡ true
    → w < 2 ^ 32
    → let format = before ++ (b'%' ∷ b'x' ∷ after) in
      (out : Bytes) × (n : ℕ) × (printf s format (word w ∷ [])
        ≡ some (put_all (put_all (put_all s before) (slice_of out 0 n)) after, length format))
      × (n ≤ 32)
      × (parse 16 out n ≡ w)
unfolding printf
printf_hexadecimal s before after w hb ha h =
    let (out, n, e, small, value) =
      print_number_lem (put_all s before) w 16 (omega arith) (omega arith) h in
    (
      out,
      n,
      ap (λ o. o >>= λ t. some (t, length (before ++ (b'%' ∷ b'x' ∷ after))))
          (printf_loop-text s before (b'%' ∷ b'x' ∷ after) (word w ∷ []) hb
            ∙ percent_x (put_all s before) (put_all (put_all s before) (slice_of out 0 n)) w after e
            ∙ printf_loop-rest (put_all (put_all s before) (slice_of out 0 n)) after [] ha),
      small,
      value,
    )
