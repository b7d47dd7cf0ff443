-- ===== src/Screen/Cursor.antt =====
-- Where putc, back_space and the hardware cursor of student-distrib/lib.c stand.
use project_my_os.Base.{
  ℕ, ◌+◌, ◌*◌, ◌/◌, ◌%◌, ◌^◌, ◌<◌, ◌≤◌, ◌≡◌, ◌≢◌, ◌-◌, refl, ltb, if◌then◌else◌, arith, [], ◌∷◌,
}
use project_my_os.Screen.{
  Screen, InBounds, put_cell, putc, back_space, terminal_scroll_down, update_terminal_cursor, blank,
  position,
}
use project_my_os.Screen.Video.{put_cell_lem, terminal_scroll_down_lem}

-- Whatever is printed, the cursor stays on the page.
pub putc-InBounds : (s : Screen) (c : ℕ) → InBounds s → InBounds (putc s c)
unfolding putc terminal_scroll_down
putc-InBounds s c v = ground arith

pub back_space-InBounds : (s : Screen) → InBounds s → InBounds (back_space s)
unfolding back_space
back_space-InBounds s v = ground arith

-- No character printed with the cursor on the page changes a byte past the page.
pub putc-video_outside :
    (s : Screen) (c k : ℕ) → InBounds s → 4000 ≤ k → (putc s c).video k ≡ s.video k
unfolding putc
putc-video_outside s c k v h = ground (
  arith,
  put_cell_lem s.video (position s) c k,
  terminal_scroll_down_lem (record s { screen_y = s.screen_y + 1; screen_x = 0 }) k,
  terminal_scroll_down_lem
      (record {
        video = put_cell s.video (position s) c;
        screen_x = (s.screen_x + 1) % 80;
        screen_y = s.screen_y + (s.screen_x + 1) / 80;
      })
      k,
)

-- The linear position moves on by one cell, and past the last cell to the start of the last row.
pub position-putc :
    (s : Screen) (c : ℕ)
    → InBounds s
    → c ≢ 0x0A
    → c ≢ 0x0D
    → position (putc s c) ≡ (if ltb (position s) 1999 then position s + 1 else 1920)
unfolding putc terminal_scroll_down
position-putc s c v n r = ground arith

-- A line end moves to the start of the next row, and from the last row to its own start.
pub position-putc_newline :
    (s : Screen)
    → InBounds s
    → position (putc s 0x0A) ≡ (if ltb s.screen_y 24 then 80 * (s.screen_y + 1) else 1920)
unfolding putc terminal_scroll_down
position-putc_newline s v = ground arith

-- Before the last cell, printing a character fills the cell under the cursor alone.
pub putc-video :
    (s : Screen) (c k : ℕ)
    → InBounds s
    → position s < 1999
    → c ≢ 0x0A
    → c ≢ 0x0D
    → (putc s c).video k ≡ put_cell s.video (position s) c k
unfolding putc
putc-video s c k v p n r = ground arith

back_space-position : (s : Screen) → InBounds s → position (back_space s) ≡ position s - 1
unfolding back_space
back_space-position s v = ground arith

back_space-video :
    (s : Screen) (k : ℕ)
    → InBounds s
    → 0 < position s
    → (back_space s).video k ≡ put_cell s.video (position s - 1) blank k
unfolding back_space
back_space-video s k v p = ground (
  arith,
  put_cell_lem s.video (80 * (s.screen_y - 1) + 79) blank k,
  put_cell_lem s.video (80 * s.screen_y + (s.screen_x - 1)) blank k,
  put_cell_lem s.video (position s - 1) blank k,
)

-- Backspace undoes the echo of a character, across row ends too: the cursor is back where it was,
-- its cell is blank, and every other byte of the page is as before.
pub back_space-putc :
    (s : Screen) (c k : ℕ)
    → InBounds s
    → position s < 1999
    → c ≢ 0x0A
    → c ≢ 0x0D
    → let t = back_space (putc s c) in
      (position t ≡ position s) × (t.video k ≡ put_cell s.video (position s) blank k)
back_space-putc s c k v p n r =
    let v' = putc-InBounds s c v in
    let e : position (putc s c) ≡ position s + 1 = ground (arith, position-putc s c v n r) in
    (
      omega (arith, e, back_space-position (putc s c) v'),
      ground (
        arith,
        e,
        back_space-video (putc s c) k v',
        putc-video s c k v p n r,
        put_cell_lem (putc s c).video (position (putc s c) - 1) blank k,
        put_cell_lem s.video (position s) blank k,
        put_cell_lem s.video (position s) c k,
      ),
    )

-- The bytes sent to the cursor ports make up the cursor's linear position, low byte first.
pub update_terminal_cursor_lem :
    (s : Screen)
    → InBounds s
    → (lo : ℕ) × (hi : ℕ) × (update_terminal_cursor s
        ≡ (0x3D4, 0x0F) ∷ (0x3D5, lo) ∷ (0x3D4, 0x0E) ∷ (0x3D5, hi) ∷ [])
      × (lo < 256)
      × (hi < 256)
      × (lo + 256 * hi ≡ position s)
unfolding update_terminal_cursor
update_terminal_cursor_lem s v =
    let p : ℕ = (s.screen_y * 80 + s.screen_x) % 2 ^ 16 in
    (p % 256, p / 256 % 256, refl, omega arith, omega arith, omega arith)
