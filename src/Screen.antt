-- ===== src/Screen.antt =====
-- The text screen of student-distrib/lib.c: the video page, the cursor, putc and puts.
pub mod Video
pub mod Cursor
pub mod Print
use project_my_os.Base.{
  ℕ, zero, suc, ◌+◌, ◌-◌, ◌*◌, ◌/◌, ◌%◌, ◌^◌, ◌<◌, Bool, true, false, ◌||◌, Option, none, some,
  List, [], ◌∷◌, ltb, leb, ◌==◌, if◌then◌else◌, Bytes, update,
}

-- `video_mem` as the bytes from 0xB8000 on, and the two cursor variables. Both are signed in the
-- source and never fall below 0: each decrement stands behind a test.
pub record Screen : Type 0 where
  pub video : Bytes
  pub screen_x : ℕ
  pub screen_y : ℕ

abbrev pub num_cols : ℕ
num_cols = 80

abbrev pub num_rows : ℕ
num_rows = 25

abbrev pub attrib : ℕ
attrib = 7

abbrev pub blank : ℕ
blank = 32

-- The two stores of one cell: a character and its attribute.
unfoldable pub put_cell : Bytes → ℕ → ℕ → Bytes
unfolding update
put_cell video p c = update (update video (p * 2) c) (p * 2 + 1) attrib

-- The two assignments of one round: cell `i` takes what stands one row below it.
unfoldable pub move_cell : Bytes → ℕ → Bytes
unfolding update
move_cell video i =
    let moved = update video (i * 2) (video ((i + num_cols) * 2)) in
    update moved (i * 2 + 1) (moved ((i + num_cols) * 2 + 1))

-- The first loop of `terminal_scroll_down`, `r` rounds from cell `i` on, in place.
unfoldable pub shift_loop : ℕ → ℕ → Bytes → Bytes
shift_loop zero i video = video
shift_loop (suc r) i video = shift_loop r (i + 1) (move_cell video i)

-- `r` blank cells from cell `p` on: the loop of `clear`, and the second of `terminal_scroll_down`.
unfoldable pub blank_loop : ℕ → ℕ → Bytes → Bytes
blank_loop zero p video = video
blank_loop (suc r) p video = blank_loop r (p + 1) (put_cell video p blank)

unfoldable pub terminal_scroll_down : Screen → Screen
terminal_scroll_down s = record {
  video =
      blank_loop num_cols ((num_rows - 1) * num_cols)
        (shift_loop ((num_rows - 1) * num_cols) 0 s.video);
  screen_x = s.screen_x;
  screen_y = if ltb 0 s.screen_y then s.screen_y - 1 else s.screen_y;
}

-- The port writes of `update_terminal_cursor`, in order: (port, byte). `pos` is an unsigned short.
unfoldable pub update_terminal_cursor : Screen → List (ℕ × ℕ)
update_terminal_cursor s =
    let pos = (s.screen_y * num_cols + s.screen_x) % 2 ^ 16 in
    (0x3D4, 0x0F) ∷ (0x3D5, pos % 256) ∷ (0x3D4, 0x0E) ∷ (0x3D5, pos / 256 % 256) ∷ []

-- The store of `back_space` once the cursor has moved.
unfoldable pub blank_here : Screen → Screen
blank_here s = record s { video = put_cell s.video (num_cols * s.screen_y + s.screen_x) blank }

unfoldable pub back_space : Screen → Screen
unfolding blank_here
back_space s =
    if s.screen_x == 0
    then (if s.screen_y == 0
        then s
        else blank_here (record s { screen_y = s.screen_y - 1; screen_x = num_cols - 1 }))
    else blank_here (record s { screen_x = s.screen_x - 1 })

unfoldable pub init_screen_x_and_y : Screen → Screen
init_screen_x_and_y s = record s { screen_x = 0; screen_y = 0 }

unfoldable pub clear : Screen → Screen
clear s = record { video = blank_loop (num_rows * num_cols) 0 s.video; screen_x = 0; screen_y = 0 }

unfoldable pub clear_screen : Screen → Screen
unfolding clear
clear_screen s = clear (record s { screen_x = 0; screen_y = 0 })

-- The last test of both branches of `putc`.
unfoldable pub scroll_if_past : Screen → Screen
scroll_if_past s = if leb num_rows s.screen_y then terminal_scroll_down s else s

unfoldable pub putc : Screen → ℕ → Screen
unfolding scroll_if_past
putc s c =
    if (c == 0x0A) || (c == 0x0D)
    then scroll_if_past (record s { screen_y = s.screen_y + 1; screen_x = 0 })
    else scroll_if_past (record {
      video = put_cell s.video (num_cols * s.screen_y + s.screen_x) c;
      screen_x = (s.screen_x + 1) % num_cols;
      screen_y = s.screen_y + (s.screen_x + 1) / num_cols;
    })

-- `puts` from index `index` on: the screen and the number of bytes written.
unfoldable pub puts_loop : ℕ → Screen → Bytes → ℕ → Option (Screen × ℕ)
puts_loop zero sc s index = none
puts_loop (suc f) sc s index = elim (s index == 0) [
  | true ↦ some (sc, index)
  | false ↦ puts_loop f (putc sc (s index)) s (index + 1)
]

unfoldable pub puts : Screen → Bytes → Option (Screen × ℕ)
puts sc s = puts_loop (2 ^ 32) sc s 0

-- The characters of a text in turn, as the calls of `putc` print them.
unfoldable pub put_all : Screen → List ℕ → Screen
put_all s [] = s
put_all s (c ∷ cs) = put_all (putc s c) cs

-- The cursor is on the page.
pub record InBounds (s : Screen) : Type 0 where
  pub column : s.screen_x < num_cols
  pub row : s.screen_y < num_rows

-- The cell under the cursor, counted along the rows.
abbrev pub position : Screen → ℕ
position s = num_cols * s.screen_y + s.screen_x
