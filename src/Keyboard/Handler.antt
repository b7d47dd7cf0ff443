-- ===== src/Keyboard/Handler.antt =====
-- process_keyboard_input and keyboard_interrupt_handler of student-distrib/keyboard.c.
use project_my_os.Base.{
  ℕ, zero, suc, ◌+◌, ◌-◌, Option, some, List, ◌++◌, ltb, ◌==◌, if◌then◌else◌, ◌>>=◌, ◌&&◌, ◌||◌,
  Bytes, update, bit_or,
}
use project_my_os.Screen.{back_space, clear_screen}
use project_my_os.FileSystem.{Dentry}
use project_my_os.FileSystem.Show.{print_allfile_name, files_test, file_index}
use project_my_os.Pic.{send_eoi}
use project_my_os.Keyboard.{
  Keyboard, Terminal, move_cursor, echo, clear_buf, clear_storage_buf, keyboard_irq,
}
use project_my_os.Keyboard.Tables.{norm, cap_norm, shift_norm, cap_shift, key}

-- The flags that a press or a release sets.
unfoldable pub set_flags : Keyboard → ℕ → Keyboard
set_flags k c = record k {
  shift_right_flag = if c == 0x36 then 1 else if c == 0xB6 then 0 else k.shift_right_flag;
  shift_left_flag = if c == 0x2A then 1 else if c == 0xAA then 0 else k.shift_left_flag;
  ctrl_left_flag = if c == 0x1D then 1 else if c == 0x9D then 0 else k.ctrl_left_flag;
  caps_flag =
      if c == 0x3A && k.caps_flag == 0
      then 1
      else if c == 0x3A && k.caps_flag == 1
      then 0
      else k.caps_flag;
}

-- The loop that copies the line to the storage buffer, `r` characters from index `i` on.
unfoldable pub store_loop : ℕ → ℕ → Keyboard → Keyboard
store_loop zero i k = k
store_loop (suc r) i k = store_loop r (i + 1) (record k {
  storage_buffer = update k.storage_buffer i (k.buffer i);
  storage_buffer_counter = k.storage_buffer_counter + 1;
})

-- What ENTER does to the two buffers: the line and a line end become readable.
unfoldable pub store_line : Keyboard → Keyboard
unfolding store_loop clear_buf clear_storage_buf
store_line k =
    let cleared = clear_storage_buf (record k { backspacable_counter = 0; readable_flag = 0 }) in
    let n = k.buffer_content_counter in
    let stored = store_loop n 0 cleared in
    clear_buf (record stored {
      storage_buffer = update stored.storage_buffer n 0x0A;
      storage_buffer_counter = stored.storage_buffer_counter + 1;
      readable_flag = 1;
    })

unfoldable pub press_enter : Terminal → Terminal
unfolding move_cursor echo
press_enter t = let u = move_cursor (echo t 0x0A) in record u { keys = store_line t.keys }

-- What a backspace does to the line.
unfoldable pub drop_last : Keyboard → Keyboard
drop_last k =
    if ltb 0 k.buffer_content_counter
    then record k {
      backspacable_counter = k.backspacable_counter - 1;
      buffer_content_counter = k.buffer_content_counter - 1;
      buffer = update k.buffer (k.buffer_content_counter - 1) 0;
    }
    else record k { backspacable_counter = k.backspacable_counter - 1 }

unfoldable pub press_backspace : Terminal → Terminal
unfolding move_cursor
press_backspace t =
    if ltb 0 t.keys.backspacable_counter
    then (let u = move_cursor (record t { screen = back_space t.screen }) in
        record u { keys = drop_last t.keys })
    else t

-- Two blanks on the screen, and none in the line.
unfoldable pub press_tab : Terminal → Terminal
unfolding move_cursor echo
press_tab t =
    let u = move_cursor (echo (echo t 0x20) 0x20) in
    record u { keys = record t.keys { backspacable_counter = t.keys.backspacable_counter + 2 } }

-- The table that the caps lock and shift flags choose.
unfoldable pub chosen : Keyboard → List ℕ
chosen k =
    if k.caps_flag == 1
    then (if bit_or k.shift_left_flag k.shift_right_flag == 1 then cap_shift else cap_norm)
    else if bit_or k.shift_left_flag k.shift_right_flag == 1
    then shift_norm
    else norm

-- A character at the end of the line.
unfoldable pub add_char : Keyboard → ℕ → Keyboard
add_char k c = record k {
  buffer = update k.buffer k.buffer_content_counter c;
  buffer_content_counter = k.buffer_content_counter + 1;
  backspacable_counter = k.backspacable_counter + 1;
}

-- A letter, if the line is not full.
unfoldable pub press_letter : Terminal → ℕ → Terminal
unfolding move_cursor echo
press_letter t code =
    if ltb t.keys.buffer_content_counter 128
    then (let c = key (chosen t.keys) code in
        let u = move_cursor (echo t c) in record u { keys = add_char t.keys c })
    else t

-- The part of `process_keyboard_input` behind the control combinations.
unfoldable pub press : Terminal → ℕ → Terminal
unfolding press_enter press_backspace press_tab press_letter
press t code =
    if ltb 0x3A code
    then t
    else if key norm code == 0x0A
    then press_enter t
    else if key norm code == 0x08
    then press_backspace t
    else if key norm code == 0x09
    then press_tab t
    else if code == 0x36 || code == 0x2A || code == 0x1D
    then t
    else if code == 0x3A
    then t
    else press_letter t code

-- Control-L.
unfoldable pub clear_all : Terminal → Terminal
unfolding move_cursor clear_buf clear_storage_buf
clear_all t = move_cursor (record t {
  screen = clear_screen t.screen;
  keys = clear_storage_buf (record (clear_buf t.keys) { backspacable_counter = 0 });
})

-- Control-1, -2 and -3 run a display. `stack_buf` and `stack` are the locals of `files_test` and
-- `file_index` as the stack leaves them. `none` stands for a string with no NUL.
unfoldable pub process_keyboard_input : Terminal → ℕ → Bytes → Dentry → Option Terminal
unfolding set_flags
process_keyboard_input t code stack_buf stack =
    let k = set_flags t.keys code in
    let u = record t { keys = k } in
    let ctrl = k.ctrl_left_flag == 1 || k.ctrl_right_flag == 1 in
    if ctrl && code == 0x26
    then some (clear_all u)
    else if ctrl && code == 0x2
    then (files_test u.fs u.screen stack_buf stack >>= λ r.
        some (record u { fs = r.0; screen = r.1 }))
    else if ctrl && code == 0x3
    then (print_allfile_name u.fs u.screen >>= λ s. some (record u { screen = s }))
    else if ctrl && code == 0x4
    then (file_index u.fs k.index_file u.screen stack >>= λ s.
        some (record u { screen = s; keys = record k { index_file = k.index_file + 1 } }))
    else some (press u code)

-- The interrupt handler: the scan code comes from the keyboard's port.
unfoldable pub keyboard_interrupt_handler : Terminal → ℕ → Bytes → Dentry → Option Terminal
keyboard_interrupt_handler t inb stack_buf stack =
    process_keyboard_input t inb stack_buf stack >>= λ u.
    some (record u { out = u.out ++ send_eoi keyboard_irq })
