-- ===== src/Tests/Display.antt =====
-- The screen, the keyboard and the terminal of student-distrib on small states.
use project_my_os.Base.{Bytes, ◌≤◌, ℕ, ◌≡◌, refl, some, [], ◌∷◌, slice_of, codes, pos, arith}
use project_my_os.Str.{bytes_of}
use project_my_os.Str.Decimal.{parse}
use project_my_os.Printf.{word, printf}
use project_my_os.Printf.Number.{no_percent, printf_number}
use project_my_os.Screen.{Screen, InBounds, putc, terminal_scroll_down, put_all, blank}
use project_my_os.Screen.Video.{terminal_scroll_down_lem}
use project_my_os.Screen.Cursor.{putc-video_outside}
use project_my_os.FileSystem.{blank_dentry}
use project_my_os.Keyboard.{Keyboard, Terminal, terminal_read, terminal_write}
use project_my_os.Keyboard.Tables.{norm, key}
use project_my_os.Keyboard.Handler.{chosen, press_enter, press, set_flags, process_keyboard_input}
use project_my_os.Keyboard.Line.{line, IsValid}
use project_my_os.Keyboard.ReadWrite.{
  press_all, types_char, AllType, typed_line_is_read, terminal_write_lem,
}
use project_my_os.Keyboard.Editing.{process_keyboard_input-IsValid}
use project_my_os.Tests.Fixture.{frame_image}

-- The cursor at the end of a row.
abbrev pub row_end : Screen
row_end = record { video = λ i. 7; screen_x = 79; screen_y = 3 }

-- The cursor on the last cell.
abbrev page_end : Screen
page_end = record { video = λ i. 7; screen_x = 79; screen_y = 24 }

page_end-InBounds : InBounds page_end
page_end-InBounds = record { column = omega arith; row = omega arith }

abbrev idle : Keyboard
idle = record {
  caps_flag = 0;
  shift_left_flag = 0;
  shift_right_flag = 0;
  ctrl_left_flag = 0;
  ctrl_right_flag = 0;
  buffer = λ i. 0;
  storage_buffer = λ i. 0;
  buffer_content_counter = 0;
  storage_buffer_counter = 0;
  backspacable_counter = 0;
  readable_flag = 0;
  index_file = 0;
  count = 0;
}

abbrev pub terminal : Terminal
terminal = record {
  keys = idle;
  screen = row_end;
  fs = frame_image;
  pic = record { master_mask = 0xFF; slave_mask = 0xFF };
  out = [];
}

-- Two characters of a line have been typed.
abbrev typing : Terminal
typing = record terminal {
  keys = record idle {
    buffer = bytes_of (codes "ls");
    buffer_content_counter = 2;
    backspacable_counter = 2;
  };
}

terminal_scroll_down_lem_example : (terminal_scroll_down page_end).video 3840 ≡ blank
terminal_scroll_down_lem_example = terminal_scroll_down_lem page_end 3840

putc-video_outside_example : (putc page_end 65).video 4000 ≡ 7
putc-video_outside_example = putc-video_outside page_end 65 4000 page_end-InBounds (omega arith)

-- The keys c, a and t.
cat-AllType : AllType (0x2E ∷ 0x1E ∷ 0x14 ∷ [])
unfolding types_char key norm
cat-AllType = (refl, (refl, (refl, tt)))

typed_line_is_read_example :
    (k : Keyboard) × (terminal_read
        (press_enter (press_all terminal (0x2E ∷ 0x1E ∷ 0x14 ∷ []))).keys
        (pos 128)
      ≡ some (k, pos 4, codes "cat\n"))
    × (k.readable_flag ≡ 0)
    × (line k ≡ [])
unfolding key chosen norm
typed_line_is_read_example =
    typed_line_is_read terminal (0x2E ∷ 0x1E ∷ 0x14 ∷ []) 128 cat-AllType refl (omega arith)
      (omega arith)

terminal_write_lem_example :
    (u : Terminal) × (terminal_write typing (bytes_of (codes "x")) (pos 1) ≡ some (u, pos 3))
    × (u.screen ≡ put_all row_end (codes "xs\0"))
    × (u.keys.buffer_content_counter ≡ 0)
unfolding slice_of
terminal_write_lem_example = terminal_write_lem typing (bytes_of (codes "x")) 1 (omega arith)

-- The state after the key a; the key sets no flag.
abbrev after_a : Terminal
after_a = press (record typing { keys = set_flags typing.keys 0x1E }) 0x1E

process_keyboard_input-IsValid_example : IsValid after_a.keys
unfolding process_keyboard_input set_flags
process_keyboard_input-IsValid_example =
    process_keyboard_input-IsValid typing after_a 0x1E (bytes_of []) blank_dentry
      (record { line_fits = omega arith; storage_fits = omega arith }) refl

printf_number_example :
    (out : Bytes) × (n : ℕ) × (printf row_end (codes "pid %u\n") (word 42 ∷ [])
      ≡ some
          (put_all (put_all (put_all row_end (codes "pid ")) (slice_of out 0 n)) (codes "\n"), 7))
    × (n ≤ 32)
    × (parse 10 out n ≡ 42)
unfolding no_percent
printf_number_example = printf_number row_end (codes "pid ") (codes "\n") 42 refl refl (omega arith)
