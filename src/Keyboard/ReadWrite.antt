-- ===== src/Keyboard/ReadWrite.antt =====
-- terminal_read and terminal_write of student-distrib/keyboard.c, with the keys typed before them.
use project_my_os.Base.{
  ℕ, zero, suc, ◌+◌, ◌≤◌, ◌<◌, ◌≡◌, refl, Bool, true, some, List, [], ◌∷◌, ◌++◌, map, ltb, ◌==◌,
  if◌then◌else◌, Bytes, update, update_lem, slice_of, slice_of-eq, length, pos, arith, ap, ap₂, ◌∙◌,
  ℤ, ltb_of_le, sym, not, ◌&&◌, ◌||◌, lt→ltb,
}
use mathlib.Core.List.{append_assoc, append-nil}
use project_my_os.Screen.{Screen, put_all, putc}
use project_my_os.Keyboard.{
  Keyboard, Terminal, clear_storage_buf, read_bytes, terminal_read, write_loop, terminal_write,
  print_buf, print_loop, write_and_print,
}
use project_my_os.Keyboard.Tables.{norm, key}
use project_my_os.Keyboard.Handler.{store_line, press_enter, chosen, add_char, press_letter, press}
use project_my_os.Keyboard.Line.{
  line, stored, store_line-counter, store_line-ready, stored-store_line, line-add_char,
}

read_bytes_lem : (r : ℕ) (s : Bytes) (i : ℕ) → read_bytes r s i ≡ slice_of s i r
unfolding read_bytes slice_of
read_bytes_lem zero s i = refl
read_bytes_lem (suc r) s i = ap (◌∷◌ (s i)) (read_bytes_lem r s (i + 1))

taken : (m n : ℕ) → m ≤ n → (if ltb m n then m else n) ≡ m
taken m n h = ground arith

terminal_read-ready :
    (k : Keyboard) (n : ℕ)
    → k.readable_flag ≡ 1
    → k.storage_buffer_counter ≤ n
    → terminal_read k (pos n)
      ≡ some (
        record (clear_storage_buf k) { readable_flag = 0 },
        pos k.storage_buffer_counter,
        stored k,
      )
unfolding terminal_read
terminal_read-ready k n ready h = rw (
  ready,
  taken k.storage_buffer_counter n h,
  read_bytes_lem k.storage_buffer_counter k.storage_buffer 0,
)

line-clear_storage_buf : (k : Keyboard) → line (clear_storage_buf k) ≡ line k
unfolding clear_storage_buf
line-clear_storage_buf k = refl

-- A finished line is read whole by a reader whose buffer has room: the line with its line end and
-- its length. Afterwards nothing is readable and the line is empty.
pub read-press_enter :
    (t : Terminal) (n : ℕ)
    → t.keys.buffer_content_counter ≤ 128
    → t.keys.buffer_content_counter + 1 ≤ n
    → (k : Keyboard) × (terminal_read (press_enter t).keys (pos n)
        ≡ some (k, pos (t.keys.buffer_content_counter + 1), line t.keys ++ 0x0A ∷ []))
      × (k.readable_flag ≡ 0)
      × (line k ≡ [])
unfolding press_enter slice_of
read-press_enter t n h l =
    let k = store_line t.keys in
    let c = store_line-counter t.keys in
    let ready = store_line-ready t.keys in
    (
      record (clear_storage_buf k) { readable_flag = 0 },
      terminal_read-ready k n ready.0 (omega arith)
          ∙ ap₂ (λ m s. some (record (clear_storage_buf k) { readable_flag = 0 }, pos m, s)) c
              (stored-store_line t.keys (omega arith)),
      refl,
      line-clear_storage_buf k ∙ ap (slice_of k.buffer 0) ready.1,
    )

-- The keys in turn.
pub press_all : Terminal → List ℕ → Terminal
press_all t [] = t
press_all t (c ∷ cs) = press_all (press t c) cs

-- A key that types a character: no line end, backspace, tab, shift, control or caps lock.
unfoldable pub types_char : ℕ → Bool
types_char c =
    not (ltb 0x39 c)
    && not (key norm c == 0x0A)
    && not (key norm c == 0x08)
    && not (key norm c == 0x09)
    && not (c == 0x36 || c == 0x2A || c == 0x1D)

abbrev pub AllType : List ℕ → Type 0
AllType [] = Unit {0}
AllType (c ∷ cs) = (types_char c ≡ true) × AllType cs

press-types_char : (t : Terminal) (c : ℕ) → types_char c ≡ true → press t c ≡ press_letter t c
unfolding press types_char
press-types_char t c h = ground arith

press_letter-keys :
    (t : Terminal) (c : ℕ)
    → t.keys.buffer_content_counter < 128
    → (press_letter t c).keys ≡ add_char t.keys (key (chosen t.keys) c)
unfolding press_letter
press_letter-keys t c h = rw (lt→ltb _ _ h)

add_char-kept :
    (k : Keyboard) (c : ℕ)
    → (chosen (add_char k c) ≡ chosen k)
      × ((add_char k c).buffer_content_counter ≡ k.buffer_content_counter + 1)
unfolding add_char chosen
add_char-kept k c = (refl, refl)

press_all-line :
    (t : Terminal) (cs : List ℕ)
    → AllType cs
    → t.keys.buffer_content_counter + length cs ≤ 128
    → (line (press_all t cs).keys ≡ line t.keys ++ map (key (chosen t.keys)) cs)
      × ((press_all t cs).keys.buffer_content_counter ≡ t.keys.buffer_content_counter + length cs)
unfolding press_all
press_all-line t [] a h = (sym (append-nil (line t.keys)), omega arith)
press_all-line t (c ∷ cs) a h =
    let e : (press t c).keys ≡ add_char t.keys (key (chosen t.keys) c) =
      ap (λ u. u.keys) (press-types_char t c a.0) ∙ press_letter-keys t c (omega arith) in
    let kept = add_char-kept t.keys (key (chosen t.keys) c) in
    let table = ap chosen e ∙ kept.0 in
    let count = ap (λ k. k.buffer_content_counter) e ∙ kept.1 in
    let ih = press_all-line (press t c) cs a.1 (omega arith) in
    (
      ih.0
          ∙ ap₂ ◌++◌ (ap line e ∙ line-add_char t.keys (key (chosen t.keys) c))
              (ap (λ s. map (key s) cs) table)
          ∙ append_assoc (line t.keys) (key (chosen t.keys) c ∷ []) (map (key (chosen t.keys)) cs),
      omega arith,
    )

-- From the keys to the program: up to 128 character keys typed on an empty line and then ENTER
-- give a reader with room the characters of those keys, in the table that shift and caps lock
-- choose, followed by a line end.
pub typed_line_is_read :
    (t : Terminal) (cs : List ℕ) (n : ℕ)
    → AllType cs
    → t.keys.buffer_content_counter ≡ 0
    → length cs ≤ 128
    → length cs + 1 ≤ n
    → (k : Keyboard) × (terminal_read (press_enter (press_all t cs)).keys (pos n)
        ≡ some (k, pos (length cs + 1), map (key (chosen t.keys)) cs ++ 0x0A ∷ []))
      × (k.readable_flag ≡ 0)
      × (line k ≡ [])
unfolding slice_of
typed_line_is_read t cs n a z h room =
    let (typed, count) = press_all-line t cs a (omega arith) in
    let (k, read, done, empty) = read-press_enter (press_all t cs) n (omega arith) (omega arith) in
    (
      k,
      read
          ∙ ap₂ (λ m s. some (k, pos m, s ++ 0x0A ∷ [])) (omega (arith, count))
              (typed ∙ ap (λ c. slice_of t.keys.buffer 0 c ++ map (key (chosen t.keys)) cs) z),
      done,
      empty,
    )

print_loop_lem :
    (r : ℕ) (buffer : Bytes) (i : ℕ) (s : Screen)
    → print_loop r buffer i s ≡ put_all s (slice_of buffer i r)
unfolding print_loop put_all slice_of
print_loop_lem zero buffer i s = refl
print_loop_lem (suc r) buffer i s = print_loop_lem r buffer (i + 1) (putc s (buffer i))

write_loop_lem :
    (r : ℕ) (buf : Bytes) (i : ℕ) (k : Keyboard)
    → ((write_loop r buf i k).buffer_content_counter ≡ k.buffer_content_counter + r)
      × ((j : ℕ)
          → (write_loop r buf i k).buffer j
            ≡ (if not (ltb j i) && ltb j (i + r) then buf j else k.buffer j))
unfolding write_loop
write_loop_lem zero buf i k = (omega arith, λ j. ground arith)
write_loop_lem (suc r) buf i k =
    let k' = record k {
      buffer = update k.buffer i (buf i);
      buffer_content_counter = k.buffer_content_counter + 1;
    } in
    let ih = write_loop_lem r buf (i + 1) k' in
    (omega (arith, ih.0), λ j. ground (arith, ih.1 j, update_lem k.buffer i (buf i) j))

pub write_and_print_lem :
    (t : Terminal) (buf : Bytes) (n : ℕ)
    → let pending = t.keys.buffer_content_counter in
      let u = write_and_print t buf (pos n) in
      (u.1 ≡ pos (pending + n))
      × (u.0.screen
          ≡ put_all t.screen
              (slice_of (λ j. if ltb j n then buf j else t.keys.buffer j) 0 (pending + n)))
      × (u.0.keys.buffer_content_counter ≡ 0)
unfolding write_and_print print_buf
write_and_print_lem t buf n =
    let w = write_loop_lem n buf 0 t.keys in
    (
      ap pos w.0,
      print_loop_lem _ _ 0 t.screen
          ∙ ap (put_all t.screen) (
              ap (slice_of (write_loop n buf 0 t.keys).buffer 0) w.0
              ∙ slice_of-eq _ _ 0 (t.keys.buffer_content_counter + n)
                  (λ j a b. ground (arith, w.1 j))),
      refl,
    )

-- A write that fits the buffer is made.
pub terminal_write-fits :
    (t : Terminal) (buf : Bytes) (n : ℕ)
    → t.keys.buffer_content_counter + n ≤ 1024
    → terminal_write t buf (pos n) ≡ some (write_and_print t buf (pos n))
unfolding terminal_write
terminal_write-fits t buf n h = rw (ltb_of_le 1024 (t.keys.buffer_content_counter + n) h) refl

-- A write of `n` bytes, where these and the characters typed so far are at most 1024 together,
-- prints the first `pending + n` bytes of the line buffer, where the bytes written stand over the
-- characters typed so far, reports that many bytes, and drops the line.
pub terminal_write_lem :
    (t : Terminal) (buf : Bytes) (n : ℕ)
    → t.keys.buffer_content_counter + n ≤ 1024
    → let pending = t.keys.buffer_content_counter in
      (u : Terminal) × (terminal_write t buf (pos n) ≡ some (u, pos (pending + n)))
      × (u.screen
          ≡ put_all t.screen
              (slice_of (λ j. if ltb j n then buf j else t.keys.buffer j) 0 (pending + n)))
      × (u.keys.buffer_content_counter ≡ 0)
terminal_write_lem t buf n h =
    let w = write_and_print_lem t buf n in
    let u = (write_and_print t buf (pos n)).0 in
    (u, terminal_write-fits t buf n h ∙ ap (λ (z : ℤ). some (u, z)) w.0, w.1, w.2)

-- With nothing typed, a write prints exactly the bytes it is given, and returns their number.
pub write_and_print_alone :
    (t : Terminal) (buf : Bytes) (n : ℕ)
    → t.keys.buffer_content_counter ≡ 0
    → ((write_and_print t buf (pos n)).1 ≡ pos n)
      × ((write_and_print t buf (pos n)).0.screen ≡ put_all t.screen (slice_of buf 0 n))
write_and_print_alone t buf n z =
    let w = write_and_print_lem t buf n in
    let e : t.keys.buffer_content_counter + n ≡ n = omega arith in
    (
      w.0 ∙ ap pos e,
      w.1
          ∙ ap (put_all t.screen) (
              ap (slice_of (λ j. if ltb j n then buf j else t.keys.buffer j) 0) e
              ∙ slice_of-eq _ _ 0 n (λ j a b. ground arith)),
    )
