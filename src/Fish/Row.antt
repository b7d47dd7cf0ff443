-- ===== src/Fish/Row.antt =====
-- A row of add_frames of fish/fish.c, over any system that reads files character by character.
use project_my_os.Base.{
  ℕ, zero, suc, ◌+◌, ◌<◌, ◌≡◌, refl, sym, ap, Bool, true, false, ◌&&◌, Bool-cases, inl, inr, Option,
  none, some, List, [], ◌∷◌, ◌++◌, length, ◌==◌, ==→eq, if◌then◌else◌, Bytes, ℤ, pos, arith,
}
use project_my_os.Str.{bytes_of}
use project_my_os.SystemCall.{Outcome, returns, ◌>>>◌}
use project_my_os.User.{System}
use project_my_os.Fish.{Mp1Call, frame_blink, add_cell, read_char, row_loop}
use project_my_os.Fish.Lines.{cell, cells, first_line, after_line}

-- A read of one character from a file of which `l` is left: none at the end, else the first one.
abbrev pub ReadsOne :
    {K : Type 0} → (sys : System K) → (K → Option (List ℕ) → Type 0) → K → ℤ → ℕ → List ℕ → Type 0
ReadsOne {K = K} sys P k fd c [] =
    (k' : K) × (buf : Bytes) × (sys.read k fd (bytes_of (c ∷ [])) 1 ≡ returns (k', pos 0, buf))
    × P k' (some [])
ReadsOne {K = K} sys P k fd c (d ∷ l) =
    (k' : K) × (buf : Bytes) × (sys.read k fd (bytes_of (c ∷ [])) 1 ≡ returns (k', pos 1, buf))
    × (buf 0 ≡ d)
    × P k' (some l)

-- A file that has been read to its end, or has been closed.
pub data IsOver : Option (List ℕ) → Type 0 where
  at_end : IsOver (some [])
  closed : IsOver none

-- What `add_frames` relies on: `IsOpen k s0 s1` says what is left of the two files.
pub record ReadsFrames {K : Type 0} (sys : System K) (fd0 fd1 : ℤ) : Type 1 where
  pub IsOpen : K → Option (List ℕ) → Option (List ℕ) → Type 0
  pub read0 :
      (k : K) (c : ℕ) (l : List ℕ) (s : Option (List ℕ))
      → IsOpen k (some l) s
      → ReadsOne sys (λ k s0. IsOpen k s0 s) k fd0 c l
  pub read1 :
      (k : K) (c : ℕ) (s : Option (List ℕ)) (l : List ℕ)
      → IsOpen k s (some l)
      → ReadsOne sys (λ k s1. IsOpen k s s1) k fd1 c l
  pub close0 :
      (k : K) (s s' : Option (List ℕ))
      → IsOver s
      → IsOpen k s s'
      → (k' : K) × (r : ℤ) × (sys.close k fd0 ≡ returns (k', r)) × IsOpen k' none s'
  pub close1 :
      (k : K) (s s' : Option (List ℕ))
      → IsOver s'
      → IsOpen k s s'
      → (k' : K) × (r : ℤ) × (sys.close k fd1 ≡ returns (k', r)) × IsOpen k' s none

-- At the end of a line: what is left of the file, if it is not over.
pub data RowOver : Bool → Option (List ℕ) → Option (List ℕ) → Type 0 where
  more_lines : {l : List ℕ} → RowOver false (some l) (some l)
  no_lines : {s : Option (List ℕ)} → IsOver s → RowOver true s none

-- Where the reading of a file stands: the character, the end of file and what is left of the file,
-- with the rest of the line and what follows it.
pub data Side : ℕ → Bool → Option (List ℕ) → List ℕ → Option (List ℕ) → Type 0 where
  within :
      {c : ℕ} {l : List ℕ}
      → (c == b'\n') ≡ false
      → Side c false (some l) (first_line l) (after_line l)
  line_over :
      {c : ℕ} {e : Bool} {s n : Option (List ℕ)}
      → (c == b'\n') ≡ true
      → RowOver e s n
      → Side c e s [] n

-- After the read: the line has ended, or its next character has been read.
data Read : ℕ → Bool → Option (List ℕ) → List ℕ → Option (List ℕ) → Type 0 where
  ended :
      {c : ℕ} {e : Bool} {s n : Option (List ℕ)}
      → (c == b'\n') ≡ true
      → RowOver e s n
      → Read c e s [] n
  got :
      {c : ℕ} {e : Bool} {s n : Option (List ℕ)} {a : List ℕ}
      → (c == b'\n') ≡ false
      → Side c e s a n
      → Read c e s (c ∷ a) n

module _ {K : Type 0} (sys : System K) (P : K → Option (List ℕ) → Type 0) (fd : ℤ)
    (law : (k : K) (c : ℕ) (l : List ℕ) → P k (some l) → ReadsOne sys P k fd c l) where
  -- The read of a file leaves it where the line goes on.
  HasRead : K → ℕ → Bool → List ℕ → Option (List ℕ) → Type 0
  HasRead k c e a n =
      (k' : K) × (c' : ℕ) × (e' : Bool) × (s' : Option (List ℕ)) × (read_char sys k fd c e
        ≡ returns (k', c', e'))
      × P k' s'
      × Read c' e' s' a n

  read_char-within :
      (k : K) (c : ℕ) (l : List ℕ)
      → (c == b'\n') ≡ false
      → P k (some l)
      → HasRead k c false (first_line l) (after_line l)
  unfolding HasRead read_char first_line after_line
  read_char-within k c [] letter p =
      let (k', buf, e, p') = law k c [] p in
      (k', b'\n', true, some [], rw (letter, e, ◌>>>◌) refl, p', ended refl (no_lines at_end))
  read_char-within k c (d ∷ l) letter p =
      let (k', buf, e, same, p') = law k c (d ∷ l) p in
      (
        k',
        d,
        false,
        some l,
        rw (letter, e, ◌>>>◌) (ap (λ (x : ℕ). returns (k', x, false)) same),
        p',
        elim (Bool-cases (d == b'\n')) [
          | inl end ↦ rw end (ended end more_lines)
          | inr more ↦ rw more (got more (within more))
        ],
      )

  read_char_lem :
      (k : K) (c : ℕ) (e : Bool) (s n : Option (List ℕ)) (a : List ℕ)
      → Side c e s a n
      → P k s
      → HasRead k c e a n
  unfolding HasRead read_char
  read_char_lem k c _ _ _ _ (within {l} letter) p = read_char-within k c l letter p
  read_char_lem k c e s n _ (line_over end over) p = (k, c, e, s, rw end refl, p, ended end over)

pub append_nil : (l : List Mp1Call) → l ++ [] ≡ l
append_nil [] = refl
append_nil (x ∷ l) = ap (λ (m : List Mp1Call). x ∷ m) (append_nil l)

pub append_assoc : (l m n : List Mp1Call) → (l ++ m) ++ n ≡ l ++ (m ++ n)
append_assoc [] m n = refl
append_assoc (x ∷ l) m n = ap (λ (m : List Mp1Call). x ∷ m) (append_assoc l m n)

-- The test of a column agrees with the blink of the two lines.
add_cell-both :
    (row col x y : ℕ)
    → (x == b'\n') ≡ false
    → (y == b'\n') ≡ false
    → add_cell row col x y ≡ cell row col x y
unfolding add_cell cell frame_blink
add_cell-both row col x y h h' = elim (Bool-cases (x == b' ')) [
  | inl bx ↦ elim (Bool-cases (y == b' ')) [
    | inl by ↦ rw (h, h', bx, by) refl
    | inr cy ↦ rw (h, h', bx, cy) refl
  ]
  | inr cx ↦ rw (h, h', cx) refl
]

add_cell-left :
    (row col x y : ℕ)
    → (x == b'\n') ≡ false
    → (y == b'\n') ≡ true
    → add_cell row col x y ≡ cell row col x b' '
unfolding add_cell cell frame_blink
add_cell-left row col x y h h' =
    let e : y ≡ b'\n' = ==→eq y b'\n' h' in
    elim (Bool-cases (x == b' ')) [ inl bx ↦ rw (e, h, bx) refl | inr cx ↦ rw (e, h, cx) refl ]

add_cell-right :
    (row col x y : ℕ)
    → (x == b'\n') ≡ true
    → (y == b'\n') ≡ false
    → add_cell row col x y ≡ cell row col b' ' y
unfolding add_cell cell frame_blink
add_cell-right row col x y h h' =
    let e : x ≡ b'\n' = ==→eq x b'\n' h in
    elim (Bool-cases (y == b' ')) [ inl by ↦ rw (e, h', by) refl | inr cy ↦ rw (e, h', cy) refl ]

module _ {K : Type 0} (sys : System K) (fd0 fd1 : ℤ) (laws : ReadsFrames sys fd0 fd1) where
  -- The run of a row ends behind both lines, with these calls.
  unfoldable pub RowEnds :
      Outcome (K × Bool × Bool × List Mp1Call)
      → Option (List ℕ)
      → Option (List ℕ)
      → List Mp1Call
      → Type 0
  RowEnds o n0 n1 calls =
      (k' : K) × (e0 : Bool) × (e1 : Bool) × (s0 : Option (List ℕ)) × (s1 : Option (List ℕ)) × (o
        ≡ returns (k', e0, e1, calls))
      × laws.IsOpen k' s0 s1
      × RowOver e0 s0 n0
      × RowOver e1 s1 n1

  -- What is shown of a row, for some fuel.
  unfoldable pub RowLaw : ℕ → Type 0
  RowLaw f =
      (k : K) (row col c0 c1 : ℕ) (e0 e1 : Bool) (s0 s1 n0 n1 : Option (List ℕ)) (a b : List ℕ)
      (calls : List Mp1Call)
      → laws.IsOpen k s0 s1
      → Side c0 e0 s0 a n0
      → Side c1 e1 s1 b n1
      → length a < f
      → length b < f
      → RowEnds (row_loop sys f k fd0 fd1 row col c0 c1 e0 e1 calls) n0 n1
          (calls ++ cells row col a b)

  RowEnds-same :
      (o : Outcome (K × Bool × Bool × List Mp1Call)) (n0 n1 : Option (List ℕ))
      (calls calls' : List Mp1Call)
      → calls ≡ calls'
      → RowEnds o n0 n1 calls
      → RowEnds o n0 n1 calls'
  RowEnds-same o n0 n1 calls calls' e h = rw (← e) h

  -- The row goes on behind a column for which `add_cell` has made these calls.
  row_on :
      (f : ℕ)
      → RowLaw f
      → (k : K) (row col c0 c1 : ℕ) (e0 e1 : Bool) (s0 s1 n0 n1 : Option (List ℕ)) (a b : List ℕ)
        (calls here : List Mp1Call)
      → add_cell row col c0 c1 ≡ here
      → (c0 == b'\n' && c1 == b'\n') ≡ false
      → laws.IsOpen k s0 s1
      → Side c0 e0 s0 a n0
      → Side c1 e1 s1 b n1
      → length a < f
      → length b < f
      → RowEnds
          (if c0 == b'\n' && c1 == b'\n'
            then returns (k, e0, e1, calls)
            else row_loop sys f k fd0 fd1 row
                (col + 1)
                c0
                c1
                e0
                e1
                (calls ++ add_cell row col c0 c1))
          n0
          n1
          (calls ++ (here ++ cells row (col + 1) a b))
  unfolding RowLaw
  row_on f law k row col c0 c1 e0 e1 s0 s1 n0 n1 a b calls here e on p side0 side1 la lb =
      rw (on, e)
        (RowEnds-same _ n0 n1 _ _ (append_assoc calls here (cells row (col + 1) a b))
          (law k row (col + 1) c0 c1 e0 e1 s0 s1 n0 n1 a b (calls ++ here) p side0 side1 la lb))

  row_after :
      (f : ℕ)
      → RowLaw f
      → (k : K) (row col c0 c1 : ℕ) (e0 e1 : Bool) (s0 s1 n0 n1 : Option (List ℕ)) (a b : List ℕ)
        (calls : List Mp1Call)
      → laws.IsOpen k s0 s1
      → Read c0 e0 s0 a n0
      → Read c1 e1 s1 b n1
      → length a < suc f
      → length b < suc f
      → RowEnds
          (if c0 == b'\n' && c1 == b'\n'
            then returns (k, e0, e1, calls)
            else row_loop sys f k fd0 fd1 row
                (col + 1)
                c0
                c1
                e0
                e1
                (calls ++ add_cell row col c0 c1))
          n0
          n1
          (calls ++ cells row col a b)
  unfolding cells RowEnds
  row_after f law k row col c0 c1 e0 e1 s0 s1 n0 n1 _ _ calls p (ended h over) (ended h' over') la
        lb =
      (
        k,
        e0,
        e1,
        s0,
        s1,
        rw (h, h') (ap (λ (l : List Mp1Call). returns (k, e0, e1, l)) (sym (append_nil calls))),
        p,
        over,
        over',
      )
  row_after f law k row col c0 c1 e0 e1 s0 s1 n0 n1 _ _ calls p (got {a} h side) (ended h' over') la
        lb =
      row_on f law k row col c0 c1 e0 e1 s0 s1 n0 n1 a [] calls (cell row col c0 b' ')
        (add_cell-left row col c0 c1 h h') (rw h refl) p side (line_over h' over') (omega arith)
        (omega arith)
  row_after f law k row col c0 c1 e0 e1 s0 s1 n0 n1 _ _ calls p (ended h over) (got {a = b} h' side)
        la lb =
      row_on f law k row col c0 c1 e0 e1 s0 s1 n0 n1 [] b calls (cell row col b' ' c1)
        (add_cell-right row col c0 c1 h h') (rw (h, h') refl) p (line_over h over) side
        (omega arith) (omega arith)
  row_after f law k row col c0 c1 e0 e1 s0 s1 n0 n1 _ _ calls p (got {a} h side)
        (got {a = b} h' side') la lb =
      row_on f law k row col c0 c1 e0 e1 s0 s1 n0 n1 a b calls (cell row col c0 c1)
        (add_cell-both row col c0 c1 h h') (rw h refl) p side side' (omega arith) (omega arith)

  pub row_lem : (f : ℕ) → RowLaw f
  unfolding RowLaw row_loop HasRead RowEnds
  row_lem zero k row col c0 c1 e0 e1 s0 s1 n0 n1 a b calls p side0 side1 la lb =
      absurd (omega arith)
  row_lem (suc f) k row col c0 c1 e0 e1 s0 s1 n0 n1 a b calls p side0 side1 la lb =
      let (k0, d0, f0, t0, e, p0, r0) =
        read_char_lem sys (λ k s. laws.IsOpen k s s1) fd0 (λ k c l q. laws.read0 k c l s1 q) k c0 e0
          s0 n0 a side0 p in
      let (k1, d1, f1, t1, e', p1, r1) =
        read_char_lem sys (λ k s. laws.IsOpen k t0 s) fd1 (λ k c l q. laws.read1 k c t0 l q) k0 c1
          e1 s1 n1 b side1 p0 in
      rw (e, ◌>>>◌, e')
        (row_after f (row_lem f) k1 row col d0 d1 f0 f1 t0 t1 n0 n1 a b calls p1 r0 r1 la lb)
