-- ===== src/Fish/Lines.antt =====
-- What fish/fish.c makes of two texts: the characters of their lines side by side.
use project_my_os.Base.{
  ℕ, ◌+◌, ◌-◌, ◌*◌, ◌%◌, ◌≤◌, ◌<◌, arith, ◌≡◌, refl, ap, Bool-cases, inl, inr, Option, none, some,
  List, [], ◌∷◌, ◌++◌, length, ◌==◌, ◌&&◌, if◌then◌else◌,
}
use project_my_os.Fish.{Mp1Call, rtc_add}

-- The lines of a text; the last one ends with the text.
unfoldable pub add_char : ℕ → List (List ℕ) → List (List ℕ)
add_char c [] = (c ∷ []) ∷ []
add_char c (l ∷ ls) = (c ∷ l) ∷ ls

unfoldable pub lines : List ℕ → List (List ℕ)
unfolding add_char
lines [] = [] ∷ []
lines (c ∷ cs) = if c == b'\n' then [] ∷ lines cs else add_char c (lines cs)

-- The blink of two characters, 40 columns from the left, unless both are blanks.
unfoldable pub cell : (row col a b : ℕ) → List Mp1Call
cell row col a b =
    if a == b' ' && b == b' '
    then []
    else rtc_add (record {
      location = (row * 80 + col + 40) % 65536;
      on_char = a;
      off_char = b;
      on_length = 15;
      off_length = 15;
    })
      ∷ []

-- The blinks of a row from a column on; a line that has ended counts as blanks.
unfoldable pub cells : (row col : ℕ) → (a b : List ℕ) → List Mp1Call
unfolding cell
cells row col [] [] = []
cells row col (x ∷ a) [] = cell row col x b' ' ++ cells row (col + 1) a []
cells row col [] (y ∷ b) = cell row col b' ' y ++ cells row (col + 1) [] b
cells row col (x ∷ a) (y ∷ b) = cell row col x y ++ cells row (col + 1) a b

-- The blinks of all rows from a row on; a text that has ended counts as blank lines.
unfoldable pub frames : (row : ℕ) → (ls ms : List (List ℕ)) → List Mp1Call
unfolding cells
frames row [] [] = []
frames row (a ∷ ls) [] = cells row 0 a [] ++ frames (row + 1) ls []
frames row [] (b ∷ ms) = cells row 0 [] b ++ frames (row + 1) [] ms
frames row (a ∷ ls) (b ∷ ms) = cells row 0 a b ++ frames (row + 1) ls ms

-- The first line of a text, and what follows its line end, if it has one.
unfoldable pub first_line : List ℕ → List ℕ
first_line [] = []
first_line (c ∷ cs) = if c == b'\n' then [] else (c ∷ first_line cs)

unfoldable pub after_line : List ℕ → Option (List ℕ)
after_line [] = none
after_line (c ∷ cs) = if c == b'\n' then some cs else after_line cs

-- The lines that are left.
unfoldable pub lines_left : Option (List ℕ) → List (List ℕ)
unfolding lines
lines_left none = []
lines_left (some l) = lines l

pub lines_lem : (l : List ℕ) → lines l ≡ first_line l ∷ lines_left (after_line l)
unfolding lines first_line after_line lines_left
lines_lem [] = refl
lines_lem (c ∷ cs) = elim (Bool-cases (c == b'\n')) [
  | inl end ↦ rw end refl
  | inr more ↦ rw (more, lines_lem cs) refl
]

-- The line that a row shows of a text, if there is one left, and what is left behind it.
unfoldable pub line_of : Option (List ℕ) → List ℕ
unfolding first_line
line_of none = []
line_of (some l) = first_line l

unfoldable pub behind : Option (List ℕ) → Option (List ℕ)
unfolding after_line
behind none = none
behind (some l) = after_line l

abbrev pub size : Option (List ℕ) → ℕ
size none = 0
size (some l) = length l

pub length-line_of : (n : Option (List ℕ)) → length (line_of n) ≤ size n
unfolding line_of first_line
length-line_of none = omega arith
length-line_of (some []) = omega arith
length-line_of (some (c ∷ cs)) = elim (Bool-cases (c == b'\n')) [
  | inl end ↦ rw end (omega arith)
  | inr more ↦ rw more (omega (arith, length-line_of (some cs)))
]

pub size-behind : (n : Option (List ℕ)) → size (behind n) ≤ size n
unfolding behind after_line
size-behind none = omega arith
size-behind (some []) = omega arith
size-behind (some (c ∷ cs)) = elim (Bool-cases (c == b'\n')) [
  | inl end ↦ rw end (omega arith)
  | inr more ↦ rw more (omega (arith, size-behind (some cs)))
]

pub lines_left-behind :
    (l : List ℕ) → lines_left (some l) ≡ line_of (some l) ∷ lines_left (behind (some l))
unfolding lines_left line_of behind
lines_left-behind l = lines_lem l

-- Every text has a line for each line end and one more, at most.
pub length-lines_left :
    (n : Option (List ℕ)) → length (lines_left (behind n)) ≤ length (lines_left n) - 1
unfolding behind lines_left
length-lines_left none = omega arith
length-lines_left (some l) = omega (arith, ap length (lines_lem l))

-- A row, as long as one of the texts has a line left.
pub frames-behind :
    (row : ℕ) (n0 n1 : Option (List ℕ))
    → 0 < length (lines_left n0) + length (lines_left n1)
    → frames row (lines_left n0) (lines_left n1)
      ≡ cells row 0 (line_of n0) (line_of n1)
        ++ frames (row + 1) (lines_left (behind n0)) (lines_left (behind n1))
unfolding lines_left line_of behind frames
frames-behind row none none h = absurd (omega arith)
frames-behind row none (some m) h = rw (lines_lem m) refl
frames-behind row (some l) none h = rw (lines_lem l) refl
frames-behind row (some l) (some m) h = rw (lines_lem l, lines_lem m) refl
