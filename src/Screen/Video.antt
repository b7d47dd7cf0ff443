-- ===== src/Screen/Video.antt =====
-- What scrolling and clearing leave in the video page.
use project_my_os.Base.{
  ℕ, zero, suc, ◌+◌, ◌*◌, ◌%◌, ◌≡◌, refl, false, not, ◌&&◌, ltb, ◌==◌, if◌then◌else◌, Bytes, arith,
}
use project_my_os.Screen.{
  Screen, put_cell, move_cell, shift_loop, blank_loop, terminal_scroll_down, clear, blank, attrib,
}

pub put_cell_lem :
    (video : Bytes) (p c k : ℕ)
    → put_cell video p c k ≡ (if k == p * 2 + 1 then attrib else if k == p * 2 then c else video k)
unfolding put_cell
put_cell_lem video p c k = refl

move_cell_lem :
    (video : Bytes) (i k : ℕ)
    → move_cell video i k ≡ (
        if k == i * 2 + 1
        then video (i * 2 + 161)
        else if k == i * 2
        then video (i * 2 + 160)
        else video k)
unfolding move_cell
move_cell_lem video i k =
    let e : (i + 80) * 2 ≡ i * 2 + 160 = omega arith in
    let e' : i * 2 + 160 + 1 ≡ i * 2 + 161 = omega arith in
    let n : (i * 2 + 161 == i * 2) ≡ false = ground arith in rw (e, e', n)

shift_loop_lem :
    (r i : ℕ) (video : Bytes) (k : ℕ)
    → shift_loop r i video k
      ≡ (if not (ltb k (i * 2)) && ltb k ((i + r) * 2) then video (k + 160) else video k)
unfolding shift_loop
shift_loop_lem zero i video k = ground arith
shift_loop_lem (suc r) i video k = ground (
  arith,
  shift_loop_lem r (i + 1) (move_cell video i) k,
  move_cell_lem video i k,
  move_cell_lem video i (k + 160),
)

blank_loop_lem :
    (r p : ℕ) (video : Bytes) (k : ℕ)
    → blank_loop r p video k ≡ (
        if not (ltb k (p * 2)) && ltb k ((p + r) * 2)
        then (if k % 2 == 0 then blank else attrib)
        else video k)
unfolding blank_loop
blank_loop_lem zero p video k = ground arith
blank_loop_lem (suc r) p video k =
    ground
      (arith, blank_loop_lem r (p + 1) (put_cell video p blank) k, put_cell_lem video p blank k)

-- Scrolling moves every row up by one, blanks the last row, and writes nothing past the page.
pub terminal_scroll_down_lem :
    (s : Screen) (k : ℕ)
    → (terminal_scroll_down s).video k ≡ (
        if ltb k 3840
        then s.video (k + 160)
        else if ltb k 4000
        then (if k % 2 == 0 then blank else attrib)
        else s.video k)
unfolding terminal_scroll_down
terminal_scroll_down_lem s k =
    ground
      (arith, blank_loop_lem 80 1920 (shift_loop 1920 0 s.video) k, shift_loop_lem 1920 0 s.video k)

-- `clear` blanks the whole page and nothing past it.
pub clear_lem :
    (s : Screen) (k : ℕ)
    → (clear s).video k ≡ (if ltb k 4000 then (if k % 2 == 0 then blank else attrib) else s.video k)
unfolding clear
clear_lem s k = ground (arith, blank_loop_lem 2000 0 s.video k)
