-- ===== src/Printf/Total.antt =====
-- printf of student-distrib/lib.c returns for every format whose conversions fit the arguments.
use project_my_os.Base.{
  ℕ, ◌+◌, ◌-◌, ◌^◌, ◌≤◌, ◌<◌, ◌≡◌, refl, ◌≢◌, ap, ◌∙◌, ◌%◌, some-injective, Option-cases, Bool,
  true, false, Option, none, some, List, [], ◌∷◌, ltb, leb, ◌==◌, if◌then◌else◌, ◌>>=◌, Bytes,
  length, Bool-cases, inl, inr, leb→le, arith,
}
use project_my_os.Str.{IsString, itoa, strlen}
use project_my_os.Str.Laws.{strlen_lem}
use project_my_os.Str.Decimal.{parse-itoa}
use project_my_os.Screen.{Screen, putc, puts}
use project_my_os.Screen.Print.{puts_lem}
use project_my_os.Printf.{
  Arg, word, text, Mode, plain, conversion, empty_buf, print_number, print_padded, print_signed,
  convert, printf_loop, printf,
}

-- The call returns a screen.
abbrev Prints : Option Screen → Type 0
Prints o = (t : Screen) × (o ≡ some t)

printed : (t : Screen) → Prints (some t)
printed t = (t, refl)

Prints-bind {ℓ} :
    {A : Type ℓ} (o : Option A) (f : A → Option Screen) (a : A)
    → o ≡ some a
    → Prints (f a)
    → Prints (o >>= f)
Prints-bind o f a e p = rw e p

Prints-puts : (s : Screen) (p : Bytes) (n : ℕ) → IsString p n → Prints (puts s p >>= λ t. some t.0)
Prints-puts s p n v = Prints-bind (puts s p) _ _ (puts_lem s p n v) (printed _)

number-Prints :
    (s : Screen) (w radix : ℕ)
    → 2 ≤ radix
    → radix ≤ 36
    → w < 2 ^ 32
    → Prints (print_number s w radix)
unfolding print_number
number-Prints s w radix low high h =
    let (out, n, e, v, small, value) = parse-itoa radix low high w empty_buf h in
    Prints-bind (itoa w empty_buf radix) _ out e (Prints-puts s out n v)

-- The eight characters that end the digits, with zeros before a shorter numeral.
padded : Bytes → ℕ → Bytes
padded digits n j = if ltb (n + j) 8 then b'0' else digits (n + j - 8)

padded-IsString : (digits : Bytes) (n : ℕ) → IsString digits n → IsString (padded digits n) 8
unfolding padded
padded-IsString digits n v = record {
  nul = let e : n + 8 - 8 ≡ n = omega arith in ground (arith, ap digits e ∙ v.nul);
  chars = λ i h. ground (arith, v.chars (n + i - 8));
  fits = omega arith;
}

padded-Prints : (s : Screen) (w : ℕ) → w < 2 ^ 32 → Prints (print_padded s w)
unfolding print_padded padded
padded-Prints s w h =
    let (out, n, e, v, small, value) = parse-itoa 16 (omega arith) (omega arith) w empty_buf h in
    Prints-bind (itoa w empty_buf 16) _ out e (
      Prints-bind (strlen out) _ n (strlen_lem out n v)
        (Prints-puts s (padded out n) 8 (padded-IsString out n v)))

-- A minus sign before a numeral.
negated : Bytes → Bytes
negated digits j = if j == 0 then b'-' else digits (j - 1)

negated-IsString :
    (digits : Bytes) (n : ℕ) → IsString digits n → n ≤ 32 → IsString (negated digits) (n + 1)
unfolding negated
negated-IsString digits n v small = record {
  nul = let e : n + 1 - 1 ≡ n = omega arith in ground (arith, ap digits e ∙ v.nul);
  chars = λ i h. ground (arith, v.chars (i - 1));
  fits = omega arith;
}

signed-Prints : (s : Screen) (w : ℕ) → w < 2 ^ 32 → Prints (print_signed s w)
unfolding print_signed negated
signed-Prints s w h = elim (Bool-cases (leb (2 ^ 31) w)) [
  | inl minus ↦
      let (out, n, e, v, small, value) =
        parse-itoa 10 (omega arith) (omega arith) (2 ^ 32 - w) empty_buf
          (omega (arith, leb→le (2 ^ 31) w minus)) in
      rw minus (
        Prints-bind (itoa (2 ^ 32 - w) empty_buf 10) _ out e
          (Prints-puts s (negated out) (n + 1) (negated-IsString out n v small)))
  | inr plus ↦ rw plus (number-Prints s w 10 (omega arith) (omega arith) h)
]

-- An argument that printf can print: a word, or a pointer to a text that ends.
abbrev pub IsPrintable : Arg → Type 0
IsPrintable (word w) = w < 2 ^ 32
IsPrintable (text p) = (n : ℕ) × IsString p n

abbrev pub ArePrintable : List Arg → Type 0
ArePrintable [] = Unit
ArePrintable (a ∷ args) = IsPrintable a × ArePrintable args

-- The arguments that conversion `c` leaves; `none` if it finds none, or one of the other kind.
unfoldable pub args_after : ℕ → List Arg → Option (List Arg)
args_after c [] =
    if c == b'%'
    then some []
    else if c == b'x'
    then none
    else if c == b'u'
    then none
    else if c == b'd'
    then none
    else if c == b'c'
    then none
    else if c == b's'
    then none
    else some []
args_after c (word w ∷ args) =
    if c == b'%'
    then some (word w ∷ args)
    else if c == b'x'
    then some args
    else if c == b'u'
    then some args
    else if c == b'd'
    then some args
    else if c == b'c'
    then some args
    else if c == b's'
    then none
    else some (word w ∷ args)
args_after c (text p ∷ args) =
    if c == b'%'
    then some (text p ∷ args)
    else if c == b's'
    then some args
    else if c == b'x'
    then none
    else if c == b'u'
    then none
    else if c == b'd'
    then none
    else if c == b'c'
    then none
    else some (text p ∷ args)

-- The conversions of a format find the arguments they ask for.
unfoldable pub conversions_fit : List ℕ → Mode → List Arg → Bool
unfolding args_after
conversions_fit [] plain args = true
conversions_fit [] (conversion alternate) args = false
conversions_fit (c ∷ format) plain args = elim (c == b'%') [
  | true ↦ conversions_fit format (conversion false) args
  | false ↦ conversions_fit format plain args
]
conversions_fit (c ∷ format) (conversion alternate) args = elim (c == b'#') [
  | true ↦ conversions_fit format (conversion true) args
  | false ↦ elim (args_after c args) [
    | none ↦ false
    | some rest ↦ conversions_fit format plain rest
  ]
]

-- What a conversion does agrees with the arguments it should leave.
abbrev Agrees : Option (Screen × List Arg) → Option (List Arg) → Type 0
Agrees o l =
    (rest : List Arg) → l ≡ some rest → ((t : Screen) × (o ≡ some (t, rest))) × ArePrintable rest

agree_if :
    (b : Bool) (x y : Option (Screen × List Arg)) (l m : Option (List Arg))
    → Agrees x l
    → Agrees y m
    → Agrees (if b then x else y) (if b then l else m)
agree_if true x y l m p q = p
agree_if false x y l m p q = q

agree_none : (o : Option (Screen × List Arg)) → Agrees o none
agree_none o rest e = absurd (cc e)

agree_some :
    (t : Screen) (args : List Arg) → ArePrintable args → Agrees (some (t, args)) (some args)
agree_some t args p rest e =
    let same : args ≡ rest = some-injective args rest e in
    ((t, ap (λ (l : List Arg). some (t, l)) same), rw (← same) p)

agree_print :
    (o : Option Screen) (args : List Arg)
    → Prints o
    → ArePrintable args
    → Agrees (o >>= λ t. some (t, args)) (some args)
agree_print o args (t, e) p = rw e (agree_some t args p)

alternate-Prints :
    (alternate : Bool) (s : Screen) (w : ℕ)
    → w < 2 ^ 32
    → Prints (if alternate then print_padded s w else print_number s w 16)
alternate-Prints true s w h = padded-Prints s w h
alternate-Prints false s w h = number-Prints s w 16 (omega arith) (omega arith) h

agree_text :
    (s : Screen) (q : Bytes) (n : ℕ) (args : List Arg)
    → IsString q n
    → ArePrintable args
    → Agrees (puts s q >>= λ t. some (t.0, args)) (some args)
agree_text s q n args v p = rw (puts_lem s q n v, ◌>>=◌) (agree_some _ args p)

convert-Agrees :
    (alternate : Bool) (c : ℕ) (s : Screen) (args : List Arg)
    → ArePrintable args
    → Agrees (convert alternate c s args) (args_after c args)
unfolding convert args_after
convert-Agrees alternate c s [] p = agree_if (c == b'%') _ _ _ _ (agree_some (putc s b'%') [] p) (
    agree_if (c == b'x') _ _ _ _ (agree_none none) (
      agree_if (c == b'u') _ _ _ _ (agree_none none) (
        agree_if (c == b'd') _ _ _ _ (agree_none none) (
          agree_if (c == b'c') _ _ _ _ (agree_none none)
            (agree_if (c == b's') _ _ _ _ (agree_none none) (agree_some s [] p))))))
convert-Agrees alternate c s (word w ∷ args) p =
    agree_if (c == b'%') _ _ _ _ (agree_some (putc s b'%') (word w ∷ args) p) (
      agree_if (c == b'x') _ _ _ _ (agree_print _ args (alternate-Prints alternate s w p.0) p.1) (
        agree_if (c == b'u') _ _ _ _
          (agree_print _ args (number-Prints s w 10 (omega arith) (omega arith) p.0) p.1)
          (agree_if (c == b'd') _ _ _ _ (agree_print _ args (signed-Prints s w p.0) p.1) (
            agree_if (c == b'c') _ _ _ _ (agree_some (putc s (w % 256)) args p.1)
              (agree_if (c == b's') _ _ _ _ (agree_none none) (agree_some s (word w ∷ args) p))))))
convert-Agrees alternate c s (text q ∷ args) p =
    agree_if (c == b'%') _ _ _ _ (agree_some (putc s b'%') (text q ∷ args) p) (
      agree_if (c == b's') _ _ _ _ (agree_text s q p.0.0 args p.0.1 p.1) (
        agree_if (c == b'x') _ _ _ _ (agree_none none) (
          agree_if (c == b'u') _ _ _ _ (agree_none none) (
            agree_if (c == b'd') _ _ _ _ (agree_none none)
              (agree_if (c == b'c') _ _ _ _ (agree_none none) (agree_some s (text q ∷ args) p))))))

fit_missing :
    (format : List ℕ) (c : ℕ) (alternate : Bool) (args : List Arg)
    → (c == b'#') ≡ false
    → args_after c args ≡ none
    → conversions_fit (c ∷ format) (conversion alternate) args ≢ true
unfolding conversions_fit
fit_missing format c alternate args letter missing = rw (letter, missing, conversions_fit) (λ e. cc)

printf_loop-Prints :
    (format : List ℕ) (mode : Mode) (s : Screen) (args : List Arg)
    → ArePrintable args
    → conversions_fit format mode args ≡ true
    → Prints (printf_loop s format mode args)
unfolding printf_loop conversions_fit
printf_loop-Prints [] plain s args p h = printed s
printf_loop-Prints [] (conversion alternate) s args p h = absurd (cc h)
printf_loop-Prints (c ∷ format) plain s args p h = elim (Bool-cases (c == b'%')) [
  | inl percent ↦
      rw (percent, printf_loop)
        (printf_loop-Prints format (conversion false) s args p (rw (percent, conversions_fit) at h))
  | inr other ↦
      rw (other, printf_loop)
        (printf_loop-Prints format plain (putc s c) args p (rw (other, conversions_fit) at h))
]
printf_loop-Prints (c ∷ format) (conversion alternate) s args p h = elim (Bool-cases (c == b'#')) [
  | inl sharp ↦
      rw (sharp, printf_loop)
        (printf_loop-Prints format (conversion true) s args p (rw (sharp, conversions_fit) at h))
  | inr letter ↦ elim (Option-cases (args_after c args)) [
    | inl missing ↦ absurd (fit_missing format c alternate args letter missing h)
    | inr (rest, left) ↦
        let ((t, e), good) = convert-Agrees alternate c s args p rest left in
        rw (letter, printf_loop)
          (Prints-bind (convert alternate c s args) _ (t, rest) e
            (printf_loop-Prints format plain t rest good (rw (letter, left, conversions_fit) at h)))
  ]
]

-- printf returns, with the number of format bytes, for every format whose conversions find an
-- argument of the kind they ask for, if the words are 32-bit words and the texts end.
pub printf-returns :
    (s : Screen) (format : List ℕ) (args : List Arg)
    → ArePrintable args
    → conversions_fit format plain args ≡ true
    → (t : Screen) × (printf s format args ≡ some (t, length format))
unfolding printf
printf-returns s format args p h =
    let (t, e) = printf_loop-Prints format plain s args p h in (t, rw (e, ◌>>=◌) refl)
