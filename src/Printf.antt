-- ===== src/Printf.antt =====
-- printf of student-distrib/lib.c. The format is the list of its bytes before the NUL; an argument
-- is a word on the stack or a pointer to a string.
pub mod Number
pub mod Total
use project_my_os.Base.{
  ℕ, ◌+◌, ◌-◌, ◌%◌, ◌^◌, Bool, true, false, Option, none, some, List, [], ◌∷◌, ltb, leb, ◌==◌,
  if◌then◌else◌, ◌>>=◌, Bytes, length,
}
use project_my_os.Str.{strlen, itoa}
use project_my_os.Screen.{Screen, putc, puts}

pub data Arg : Type 0 where
  word : ℕ → Arg
  text : Bytes → Arg

-- Where the scan stands: in plain text, or behind a `%`, with `alternate`.
pub data Mode : Type 0 where
  plain : Mode
  conversion : Bool → Mode

abbrev empty_buf : Bytes
empty_buf i = 0

-- `itoa` into a local buffer, and `puts`.
unfoldable pub print_number : Screen → ℕ → ℕ → Option Screen
print_number s value radix = do
  digits ← itoa value empty_buf radix
  printed ← puts s digits
  some printed.0

-- `%#x`: the digits stand at `conv_buf[8]`, zeros fill the bytes before from index
-- `starting_index` on, and the print starts there.
unfoldable pub print_padded : Screen → ℕ → Option Screen
print_padded s value = do
  digits ← itoa value empty_buf 16
  starting_index ← strlen digits
  printed ← puts s λ j. if ltb (starting_index + j) 8 then b'0' else digits (starting_index + j - 8)
  some printed.0

-- `%d`: a word from 2^31 on stands for a negative number.
unfoldable pub print_signed : Screen → ℕ → Option Screen
print_signed s value =
    if leb (2 ^ 31) value
    then (itoa (2 ^ 32 - value) empty_buf 10 >>= λ digits.
        puts s (λ j. if j == 0 then b'-' else digits (j - 1)) >>= λ printed. some printed.0)
    else print_number s value 10

-- A conversion that takes the next argument. A missing argument, or one of the other kind, is
-- whatever stands on the stack: `none`.
unfoldable pub convert : Bool → ℕ → Screen → List Arg → Option (Screen × List Arg)
convert alternate c s [] =
    if c == b'%'
    then some (putc s b'%', [])
    else if c == b'x'
    then none
    else if c == b'u'
    then none
    else if c == b'd'
    then none
    else if c == b'c'
    then none
    else if c == b's'
    then none
    else some (s, [])
convert alternate c s (word w ∷ args) =
    if c == b'%'
    then some (putc s b'%', word w ∷ args)
    else if c == b'x'
    then ((if alternate then print_padded s w else print_number s w 16) >>= λ t. some (t, args))
    else if c == b'u'
    then (print_number s w 10 >>= λ t. some (t, args))
    else if c == b'd'
    then (print_signed s w >>= λ t. some (t, args))
    else if c == b'c'
    then some (putc s (w % 256), args)
    else if c == b's'
    then none
    else some (s, word w ∷ args)
convert alternate c s (text p ∷ args) =
    if c == b'%'
    then some (putc s b'%', text p ∷ args)
    else if c == b's'
    then (puts s p >>= λ t. some (t.0, args))
    else if c == b'x'
    then none
    else if c == b'u'
    then none
    else if c == b'd'
    then none
    else if c == b'c'
    then none
    else some (s, text p ∷ args)

-- The scan. A format that ends behind a `%` is read on past its NUL: `none`.
unfoldable pub printf_loop : Screen → List ℕ → Mode → List Arg → Option Screen
printf_loop s [] plain args = some s
printf_loop s [] (conversion alternate) args = none
printf_loop s (c ∷ format) plain args = elim (c == b'%') [
  | true ↦ printf_loop s format (conversion false) args
  | false ↦ printf_loop (putc s c) format plain args
]
printf_loop s (c ∷ format) (conversion alternate) args = elim (c == b'#') [
  | true ↦ printf_loop s format (conversion true) args
  | false ↦ convert alternate c s args >>= λ r. printf_loop r.0 format plain r.1
]

-- The screen after the call, and the number of format bytes, which `printf` returns.
unfoldable pub printf : Screen → List ℕ → List Arg → Option (Screen × ℕ)
printf s format args = printf_loop s format plain args >>= λ t. some (t, length format)
