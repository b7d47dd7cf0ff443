-- ===== src/Keyboard/Editing.antt =====
-- Backspace and tab of student-distrib/keyboard.c: the line against the screen.
use project_my_os.Base.{ℕ, ◌+◌, ◌-◌, ◌<◌, ◌≡◌, some, Bytes, slice_of, arith, ap, ◌∙◌, lt→ltb}
use project_my_os.FileSystem.{Dentry}
use project_my_os.Screen.{putc, back_space}
use project_my_os.Keyboard.{Keyboard, Terminal}
use project_my_os.Keyboard.Handler.{
  drop_last, press_backspace, press_tab, process_keyboard_input, set_flags, clear_all,
}
use project_my_os.Keyboard.Line.{line, IsValid, press-IsValid, line-drop_last}

press_backspace-parts :
    (t : Terminal)
    → 0 < t.keys.backspacable_counter
    → ((press_backspace t).keys ≡ drop_last t.keys)
      × ((press_backspace t).screen ≡ back_space t.screen)
unfolding press_backspace
press_backspace-parts t h = (rw (lt→ltb _ _ h), rw (lt→ltb _ _ h))

drop_last-backspacable :
    (k : Keyboard) → (drop_last k).backspacable_counter ≡ k.backspacable_counter - 1
unfolding drop_last
drop_last-backspacable k = ground arith

-- A tab puts nothing in the line, and a backspace after it takes one blank of it off the screen
-- but the last character out of the line.
pub backspace_after_tab :
    (t : Terminal)
    → let u = press_backspace (press_tab t) in
      (line u.keys ≡ slice_of t.keys.buffer 0 (t.keys.buffer_content_counter - 1))
      × (u.keys.backspacable_counter ≡ t.keys.backspacable_counter + 1)
      × (u.screen ≡ back_space (putc (putc t.screen 0x20) 0x20))
unfolding press_tab
backspace_after_tab t =
    let back = press_backspace-parts (press_tab t) (omega arith) in
    (
      ap line back.0 ∙ line-drop_last (press_tab t).keys,
      ap (λ k. k.backspacable_counter) back.0
          ∙ drop_last-backspacable (press_tab t).keys
          ∙ omega arith,
      back.1,
    )

clear_all-IsValid : (t : Terminal) → IsValid (clear_all t).keys
unfolding clear_all
clear_all-IsValid t = record { line_fits = omega arith; storage_fits = omega arith }

-- Whatever key comes, and whatever display it starts, the counters stay within the two buffers.
pub process_keyboard_input-IsValid :
    (t u : Terminal) (code : ℕ) (stack_buf : Bytes) (stack : Dentry)
    → IsValid t.keys
    → process_keyboard_input t code stack_buf stack ≡ some u
    → IsValid u.keys
unfolding process_keyboard_input
process_keyboard_input-IsValid t u code stack_buf stack v e = ground (
  arith,
  clear_all-IsValid (record t { keys = set_flags t.keys code }),
  press-IsValid (record t { keys = set_flags t.keys code }) code,
)
