-- ===== src/Fish.antt =====
-- The demonstration of fish: fish/fish.c, over the calls of a user program. The calls of the
-- assembly in fish/blink.S are a list, in order.
pub mod Lines
pub mod Row
pub mod Frames
pub mod Allocator
use project_my_os.Base.{
  ℕ, zero, suc, ◌+◌, ◌*◌, ◌%◌, ◌^◌, Bool, true, false, not, ◌&&◌, ◌||◌, Option, none, some, List,
  [], ◌∷◌, ◌++◌, ◌==◌, if◌then◌else◌, Bytes, update, ℤ, pos, negsuc, is_zero, is_minus_one, codes,
  read8, read32,
}
use project_my_os.Str.{bytes_of}
use project_my_os.SystemCall.{Outcome, returns, endless, ◌>>>◌}
use project_my_os.User.{System}

-- `struct mp1_blink_struct`, the fields that the program sets.
pub record Blink : Type 0 where
  pub location : ℕ
  pub on_char : ℕ
  pub off_char : ℕ
  pub on_length : ℕ
  pub off_length : ℕ

-- A call of `mp1_ioctl` with its command, or of `mp1_rtc_tasklet`.
pub data Mp1Call : Type 0 where
  rtc_add : Blink → Mp1Call
  rtc_sync : ℕ → Mp1Call
  rtc_remove : ℕ → Mp1Call
  tasklet : ℕ → Mp1Call

-- How the program goes on: it returns, or halts with a status.
pub data Ended (K : Type 0) : Type 0 where
  back : K → List Mp1Call → Ended K
  halted : K → ℕ → List Mp1Call → Ended K

-- The blink that `add_frames` makes of two characters; its location is 16 bits wide.
unfoldable pub frame_blink : (row col c0 c1 : ℕ) → Blink
frame_blink row col c0 c1 = record {
  location = (row * 80 + col + 40) % 65536;
  on_char = if c0 == b'\n' then b' ' else c0;
  off_char = if c1 == b'\n' then b' ' else c1;
  on_length = 15;
  off_length = 15;
}

-- The test and the call of `add_frames` for one column.
unfoldable pub add_cell : (row col c0 c1 : ℕ) → List Mp1Call
unfolding frame_blink
add_cell row col c0 c1 =
    if (not (c0 == b' ') && not (c0 == b'\n')) || (not (c1 == b' ') && not (c1 == b'\n'))
    then rtc_add (frame_blink row col c0 c1) ∷ []
    else []

-- `int32_t negative`
unfoldable pub is_negative : ℤ → Bool
is_negative (pos n) = false
is_negative (negsuc n) = true

module _ {K : Type 0} (sys : System K) where
  -- `if (c != '\n') { … }` of a file: the state, the character, and whether the file is over.
  unfoldable pub read_char : K → ℤ → (c : ℕ) → (eof : Bool) → Outcome (K × ℕ × Bool)
  read_char k fd c eof =
      if c == b'\n'
      then returns (k, c, eof)
      else (sys.read k fd (bytes_of (c ∷ [])) 1 >>> λ r.
          if is_zero r.1 then returns (r.0, b'\n', true) else returns (r.0, r.2 0, eof))

  -- `while (1)` of a row, with fuel: the state, the two ends of file, and the calls.
  unfoldable pub row_loop :
      ℕ
      → K
      → (fd0 fd1 : ℤ) → (row col c0 c1 : ℕ) → (eof0 eof1 : Bool) → List Mp1Call
      → Outcome (K × Bool × Bool × List Mp1Call)
  unfolding read_char add_cell
  row_loop zero k fd0 fd1 row col c0 c1 eof0 eof1 calls = endless
  row_loop (suc f) k fd0 fd1 row col c0 c1 eof0 eof1 calls = read_char k fd0 c0 eof0 >>> λ a.
      read_char a.0 fd1 c1 eof1 >>> λ b.
      let rest =
        row_loop f b.0 fd0 fd1 row (col + 1) a.1 b.1 a.2 b.2 (calls ++ add_cell row col a.1 b.1) in
      if a.1 == b'\n' && b.1 == b'\n' then returns (b.0, a.2, b.2, calls) else rest

  -- `if (eof) { c = '\n'; ece391_close (fd); } else { c = '0'; }`
  unfoldable pub end_row : K → ℤ → (eof : Bool) → Outcome (K × ℕ)
  end_row k fd true = sys.close k fd >>> λ r. returns (r.0, b'\n')
  end_row k fd false = returns (k, b'0')

  -- `while (eof0 == 0 || eof1 == 0)`, with fuel for the rows and for the columns of a row.
  unfoldable pub rows_loop :
      ℕ
      → ℕ
      → K
      → (fd0 fd1 : ℤ) → (row c0 c1 : ℕ) → (eof0 eof1 : Bool) → List Mp1Call
      → Outcome (Ended K)
  unfolding row_loop end_row
  rows_loop zero g k fd0 fd1 row c0 c1 eof0 eof1 calls = endless
  rows_loop (suc f) g k fd0 fd1 row c0 c1 eof0 eof1 calls =
      let rest = row_loop g k fd0 fd1 row 0 c0 c1 eof0 eof1 calls >>> λ r.
      end_row r.0 fd0 r.1 >>> λ a.
      end_row a.0 fd1 r.2 >>> λ b. rows_loop f g b.0 fd0 fd1 (row + 1) a.1 b.1 r.1 r.2 r.3 in
      if eof0 && eof1 then returns (back k calls) else rest

  -- `add_frames`; a file that cannot be opened ends the program with status -1.
  unfoldable pub add_frames : ℕ → ℕ → K → (f0 f1 : Bytes) → Outcome (Ended K)
  unfolding rows_loop is_negative
  add_frames f g k f0 f1 = sys.open_file k f0 >>> λ a.
      if is_negative a.1
      then returns (halted a.0 255 [])
      else (sys.open_file a.0 f1 >>> λ b.
          if is_negative b.1
          then returns (halted b.0 255 [])
          else rows_loop f g b.0 a.1 b.1 0 b'0' b'0' false false [])

  -- `r` rounds of reading the clock and calling the tasklet with what `garbage` holds.
  unfoldable pub ticks : (r : ℕ) → K → ℤ → Bytes → List Mp1Call → Outcome (K × Bytes × List Mp1Call)
  ticks zero k fd garbage calls = returns (k, garbage, calls)
  ticks (suc r) k fd garbage calls =
      sys.read k fd garbage 4 >>> λ a. ticks r a.0 fd a.2 (calls ++ tasklet (read32 a.2 0) ∷ [])

  -- `main` behind `add_frames`, with the calls so far.
  unfoldable pub swim : K → ℤ → Bytes → List Mp1Call → Outcome (K × ℤ × List Mp1Call)
  unfolding ticks
  swim k rtc_fd garbage calls = sys.write k rtc_fd (bytes_of (32 ∷ 0 ∷ 0 ∷ 0 ∷ [])) (pos 4) >>> λ w.
      ticks 200 w.0 rtc_fd garbage calls >>> λ a.
      ticks 200 a.0 rtc_fd a.1 (
        a.2
        ++ rtc_add (record {
          location = 6 * 80 + 60;
          on_char = b'I';
          off_char = b'M';
          on_length = 7;
          off_length = 6;
        })
          ∷ [])
      >>> λ b. ticks 200 b.0 rtc_fd b.1 (b.2 ++ rtc_sync (40 * 65536 + 6 * 80 + 60) ∷ []) >>> λ c.
          ticks 2000 c.0 rtc_fd c.1 (c.2 ++ rtc_remove 200 ∷ []) >>> λ d.
          sys.close d.0 rtc_fd >>> λ e. returns (e.0, pos 0, d.2)

  -- What follows `add_frames`: a halt, with its status, or the rest of `main`.
  unfoldable pub after_frames : ℤ → Bytes → Ended K → Outcome (K × ℤ × List Mp1Call)
  unfolding swim
  after_frames rtc_fd garbage (back k calls) = swim k rtc_fd garbage calls
  after_frames rtc_fd garbage (halted k status calls) = returns (k, pos status, calls)

-- `for (i = 0; i < n; i++) mem[i] = c`, `r` rounds left.
unfoldable pub ece391_memset_loop : (r : ℕ) → Bytes → (memory c i : ℕ) → Bytes
unfolding update
ece391_memset_loop zero mem memory c i = mem
ece391_memset_loop (suc r) mem memory c i =
    ece391_memset_loop r (update mem (memory + i) (c % 256)) memory c (i + 1)

unfoldable pub ece391_memset : Bytes → (memory c n : ℕ) → Bytes
unfolding ece391_memset_loop
ece391_memset mem memory c n = ece391_memset_loop n mem memory c 0

-- `for (i = 0; i < n; i++) d[i] = s[i]`, `r` rounds left.
unfoldable pub ece391_memcpy_loop : (r : ℕ) → Bytes → (dest src i : ℕ) → Bytes
unfolding update
ece391_memcpy_loop zero mem dest src i = mem
ece391_memcpy_loop (suc r) mem dest src i =
    ece391_memcpy_loop r (update mem (dest + i) (mem (src + i))) dest src (i + 1)

unfoldable pub ece391_memcpy : Bytes → (dest src n : ℕ) → Bytes × ℤ
unfolding ece391_memcpy_loop
ece391_memcpy mem dest src n = (ece391_memcpy_loop n mem dest src 0, pos 0)

-- `blink_array[i].location`, for the array at `base`; a structure has 16 bytes.
unfoldable pub slot_location : Bytes → (base i : ℕ) → ℕ
slot_location mem base i = mem (base + 16 * i) + 256 * mem (base + 16 * i + 1)

-- The search of `mp1_malloc`, `r` slots left from slot `i` on.
unfoldable pub malloc_loop : (r : ℕ) → Bytes → (base i : ℕ) → Option ℕ
unfolding slot_location
malloc_loop zero mem base i = none
malloc_loop (suc r) mem base i = elim (slot_location mem base i == 0) [
  | true ↦ some (base + 16 * i)
  | false ↦ malloc_loop r mem base (i + 1)
]

-- `mp1_malloc`: the address of a free slot; `none` is NULL.
unfoldable pub mp1_malloc : Bytes → (base : ℕ) → Option ℕ
unfolding malloc_loop
mp1_malloc mem base = malloc_loop 2000 mem base 0

unfoldable pub mp1_free : Bytes → (memory : ℕ) → Bytes
unfolding ece391_memset
mp1_free mem memory = ece391_memset mem memory 0 16

module _ {K : Type 0} (sys : System K) where
  -- `main` behind the clearing of `blink_array`; `vmem_base_addr` stands at address `vmem`, and
  -- `before` is what it held.
  unfoldable pub fish_run :
      (f g : ℕ) → K → (vmem before : ℕ) → (garbage : Bytes) → Outcome (K × ℤ × List Mp1Call)
  unfolding add_frames after_frames
  fish_run f g k vmem before garbage = sys.vidmap k vmem >>> λ v.
      if is_minus_one v.1 || stored_word before v.2 == 0
      then returns (v.0, negsuc 0, [])
      else (sys.open_file v.0 (bytes_of (codes "rtc")) >>> λ o.
          add_frames sys f g o.0 (bytes_of (codes "frame0.txt")) (bytes_of (codes "frame1.txt"))
          >>> λ e. after_frames sys o.1 garbage e)
    where
      stored_word : ℕ → Option ℕ → ℕ
      stored_word before none = before
      stored_word before (some w) = w

  -- `main`: the memory from which the assembly starts, with the array at `base`, and the run.
  unfoldable pub fish :
      (f g : ℕ)
      → K
      → (vmem before : ℕ) → (garbage mem : Bytes) → (base : ℕ)
      → Bytes × Outcome (K × ℤ × List Mp1Call)
  unfolding fish_run ece391_memset
  fish f g k vmem before garbage mem base =
      (ece391_memset mem base 0 32000, fish_run f g k vmem before garbage)
