-- ===== src/User/Pingpong.antt =====
-- syscalls/ece391pingpong.c: a letter runs to and fro between two walls, one step at each tick of
-- the clock. The program never ends; the model is the state after a number of trips.
use project_my_os.Base.{
  ℕ, zero, suc, ◌+◌, ◌≤◌, ◌<◌, ◌≡◌, refl, ◌∙◌, not, ◌&&◌, ltb, ◌==◌, if◌then◌else◌, Bytes, update,
  update_lem, ℤ, pos, codes, [], ◌∷◌, arith,
}
use project_my_os.Str.{bytes_of}
use project_my_os.SystemCall.{Outcome, returns, ◌>>>◌}
use project_my_os.User.{System}
use project_my_os.User.Support.{ece391_fdputs}

-- `r` blanks from index `i` on.
unfoldable pub blanks : (r i : ℕ) → Bytes → Bytes
unfolding update
blanks zero i buf = buf
blanks (suc r) i buf = blanks r (i + 1) (update buf i b' ')

-- The buffer before the first trip: two walls, a newline and a NUL. The macros have no brackets:
-- `BUFMAX` is 81, and `BUFMAX-1` is `SCREENWIDTH+ENDING-1`.
unfoldable pub walls : Bytes → Bytes
unfolding blanks update
walls stack = update (update (update (update (blanks 81 0 stack) 80 0) 79 b'\n') 78 b'|') 1 b'|'

-- One picture: the inside is cleared and the letter drawn at `j`.
unfoldable pub picture : Bytes → (j c : ℕ) → Bytes
unfolding blanks update
picture buf j c = update (blanks 76 2 buf) j c

-- The letter of the next trip.
unfoldable pub next_char : ℕ → ℕ
next_char c = if c == b'Z' then b'A' else (c + 1)

module _ {K : Type 0} (sys : System K) where
  -- Draw, and wait for a tick.
  unfoldable pub show : K → ℤ → Bytes → (j c : ℕ) → Outcome (K × Bytes)
  unfolding picture ece391_fdputs
  show k rtc_fd buf j c = ece391_fdputs sys k (pos 1) (picture buf j c) >>> λ k1.
      sys.read k1 rtc_fd (bytes_of []) 4 >>> λ r. returns (r.0, picture buf j c)

  -- `for (j = STARTLOOP; j < LOOPMAX; j++)`, `r` steps left.
  unfoldable pub out_loop : (r : ℕ) → K → ℤ → Bytes → (j c : ℕ) → Outcome (K × Bytes)
  unfolding show
  out_loop zero k rtc_fd buf j c = returns (k, buf)
  out_loop (suc r) k rtc_fd buf j c =
      show k rtc_fd buf j c >>> λ s. out_loop r s.0 rtc_fd s.1 (j + 1) c

  -- `for (j = LOOPMAX - 1; j >= STARTLOOP; j--)`, `r` steps left; `j` is `r + 1`.
  unfoldable pub back_loop : (r : ℕ) → K → ℤ → Bytes → (c : ℕ) → Outcome (K × Bytes)
  unfolding show
  back_loop zero k rtc_fd buf c = returns (k, buf)
  back_loop (suc r) k rtc_fd buf c =
      show k rtc_fd buf (suc r + 1) c >>> λ s. back_loop r s.0 rtc_fd s.1 c

  -- `n` rounds of the endless loop: the state, the buffer, and the next letter.
  unfoldable pub trips : (n : ℕ) → K → ℤ → Bytes → (c : ℕ) → Outcome (K × Bytes × ℕ)
  unfolding out_loop back_loop next_char
  trips zero k rtc_fd buf c = returns (k, buf, c)
  trips (suc n) k rtc_fd buf c = out_loop 76 k rtc_fd buf 2 c >>> λ o.
      back_loop 76 o.0 rtc_fd o.1 c >>> λ b. trips n b.0 rtc_fd b.1 (next_char c)

  -- `main` up to its `n`-th trip: the clock is set to 32 ticks a second.
  unfoldable pub pingpong : (n : ℕ) → K → Bytes → Outcome (K × Bytes × ℕ)
  unfolding trips walls
  pingpong n k stack = sys.open_file k (bytes_of (codes "rtc")) >>> λ o.
      sys.write o.0 o.1 (bytes_of (32 ∷ 0 ∷ 0 ∷ 0 ∷ [])) (pos 4) >>> λ w.
      trips n w.0 o.1 (walls stack) b'A'

blanks_lem :
    (r i : ℕ) (buf : Bytes) (k : ℕ)
    → blanks r i buf k ≡ (if not (ltb k i) && ltb k (i + r) then b' ' else buf k)
unfolding blanks
blanks_lem zero i buf k = ground arith
blanks_lem (suc r) i buf k =
    blanks_lem r (i + 1) (update buf i b' ') k ∙ ground (arith, update_lem buf i b' ' k)

-- A line with nothing but its two walls, the letter and blanks.
abbrev line_of : (j c k : ℕ) → ℕ
line_of j c k =
    if k == j
    then c
    else if k == 1
    then b'|'
    else if k == 78
    then b'|'
    else if k == 79
    then b'\n'
    else if k == 80
    then 0
    else b' '

-- The frame of a picture stands from the first one on.
abbrev HasWalls : Bytes → Type 0
HasWalls buf = (buf 0 ≡ b' ') × (buf 1 ≡ b'|') × (buf 78 ≡ b'|') × (buf 79 ≡ b'\n') × (buf 80 ≡ 0)

walls-HasWalls : (stack : Bytes) → HasWalls (walls stack)
unfolding walls update
walls-HasWalls stack = (blanks_lem 81 0 stack 0, refl, refl, refl, refl)

-- The bytes of a picture.
drawn :
    (buf : Bytes) (j c k : ℕ)
    → update (blanks 76 2 buf) j c k
      ≡ (if k == j then c else if not (ltb k 2) && ltb k 78 then b' ' else buf k)
drawn buf j c k = update_lem (blanks 76 2 buf) j c k ∙ ground (arith, blanks_lem 76 2 buf k)

picture_at :
    (buf : Bytes) (j c k : ℕ)
    → buf 0 ≡ b' '
    → buf 1 ≡ b'|'
    → buf 78 ≡ b'|'
    → buf 79 ≡ b'\n'
    → buf 80 ≡ 0
    → 2 ≤ j
    → j < 78
    → k < 81
    → update (blanks 76 2 buf) j c k ≡ line_of j c k
picture_at buf j c k w0 w1 w78 w79 w80 low high inside = ground (arith, drawn buf j c k)

-- A picture with its walls shows the letter between them and nothing else, and keeps the walls.
pub picture_lem :
    (buf : Bytes) (j c k : ℕ)
    → HasWalls buf
    → 2 ≤ j
    → j < 78
    → k < 81
    → (picture buf j c k ≡ line_of j c k) × HasWalls (picture buf j c)
unfolding picture
picture_lem buf j c k (w0, w1, w78, w79, w80) low high inside = (
  picture_at buf j c k w0 w1 w78 w79 w80 low high inside,
  (
    ground (arith, drawn buf j c 0),
    ground (arith, drawn buf j c 1),
    ground (arith, drawn buf j c 78),
    ground (arith, drawn buf j c 79),
    ground (arith, drawn buf j c 80),
  ),
)
