-- ===== src/Keyboard.antt =====
-- The keyboard and the terminal of student-distrib/keyboard.c: scan codes, the line buffer that
-- the keys edit, the storage buffer that a reader takes a finished line from.
pub mod Tables
pub mod Handler
pub mod Line
pub mod ReadWrite
pub mod Editing
use project_my_os.Base.{
  ℕ, zero, suc, ◌+◌, Bool, true, false, Option, none, some, List, [], ◌∷◌, ◌++◌, ltb, ◌==◌,
  if◌then◌else◌, ◌>>=◌, Bytes, update, zero_loop, ℤ, pos, rounds,
}
use project_my_os.Screen.{
  Screen, putc, put_all, init_screen_x_and_y, update_terminal_cursor, back_space, clear_screen,
}
use project_my_os.FileSystem.{FileSystem}
use project_my_os.Pic.{Pic, enable_irq}

abbrev pub buf_size : ℕ
buf_size = 1024

abbrev pub keyboard_irq : ℕ
keyboard_irq = 1

-- The global variables of keyboard.c. The counters are `int`s that never fall below 0.
pub record Keyboard : Type 0 where
  pub caps_flag : ℕ
  pub shift_left_flag : ℕ
  pub shift_right_flag : ℕ
  pub ctrl_left_flag : ℕ
  pub ctrl_right_flag : ℕ
  pub buffer : Bytes
  pub storage_buffer : Bytes
  pub buffer_content_counter : ℕ
  pub storage_buffer_counter : ℕ
  pub backspacable_counter : ℕ
  pub readable_flag : ℕ
  pub index_file : ℕ
  pub count : ℕ

-- What the terminal functions work on: their own variables, the screen, the file system that the
-- debug displays read, the interrupt controller, and the bytes sent to ports, in order.
pub record Terminal : Type 0 where
  pub keys : Keyboard
  pub screen : Screen
  pub fs : FileSystem
  pub pic : Pic
  pub out : List (ℕ × ℕ)

unfoldable pub move_cursor : Terminal → Terminal
move_cursor t = record t { out = t.out ++ update_terminal_cursor t.screen }

unfoldable pub echo : Terminal → ℕ → Terminal
echo t c = record t { screen = putc t.screen c }

unfoldable pub clear_buf : Keyboard → Keyboard
clear_buf k = record k { buffer = zero_loop buf_size 0 k.buffer; buffer_content_counter = 0 }

unfoldable pub clear_storage_buf : Keyboard → Keyboard
clear_storage_buf k = record k {
  storage_buffer = zero_loop buf_size 0 k.storage_buffer;
  storage_buffer_counter = 0;
}

unfoldable pub keyboard_init : Terminal → Terminal
keyboard_init t = record moved {
  keys = record keys { index_file = 0; count = 1 };
  pic = enabled.0;
  out = moved.out ++ enabled.1;
}
  where
    keys : Keyboard
    keys = record t.keys {
      buffer = zero_loop buf_size 0 t.keys.buffer;
      storage_buffer = zero_loop buf_size 0 t.keys.storage_buffer;
      buffer_content_counter = 0;
      readable_flag = 0;
      backspacable_counter = 0;
    }

    moved : Terminal
    moved = move_cursor (record t { screen = init_screen_x_and_y t.screen })

    enabled : Pic × List (ℕ × ℕ)
    enabled = enable_irq t.pic keyboard_irq

-- The loop of `print_buf`, `r` characters from index `i` on.
unfoldable pub print_loop : ℕ → Bytes → ℕ → Screen → Screen
print_loop zero buffer i s = s
print_loop (suc r) buffer i s = print_loop r buffer (i + 1) (putc s (buffer i))

-- `print_buf`: the characters of the buffer on the screen, and their number.
unfoldable pub print_buf : Terminal → Terminal × ℕ
unfolding move_cursor print_loop
print_buf t =
    let n = t.keys.buffer_content_counter in
    let moved = move_cursor (record t { screen = print_loop n t.keys.buffer 0 t.screen }) in
    (record moved { keys = record t.keys { backspacable_counter = 0 } }, n)

-- The copy loop of `terminal_read`: the bytes stored from `buf[0]` on, `r` rounds from index `i`.
unfoldable pub read_bytes : ℕ → Bytes → ℕ → List ℕ
read_bytes zero storage i = []
read_bytes (suc r) storage i = storage i ∷ read_bytes r storage (i + 1)

-- `terminal_read`: the caller's bytes and their number; `none` while the loop waits for
-- `readable_flag`, which the keyboard interrupt sets.
unfoldable pub terminal_read : Keyboard → ℤ → Option (Keyboard × ℤ × List ℕ)
terminal_read k nbytes =
    if k.readable_flag == 0
    then none
    else (let n =
          if ltb k.storage_buffer_counter (rounds nbytes)
          then k.storage_buffer_counter
          else rounds nbytes in
        some (
          record (clear_storage_buf k) { readable_flag = 0 },
          pos n,
          read_bytes n k.storage_buffer 0,
        ))

-- The loop of `terminal_write`, `r` bytes from index `i` on, which lie in the buffer. The counter goes up each round from
-- where it stood before the call.
unfoldable pub write_loop : ℕ → Bytes → ℕ → Keyboard → Keyboard
write_loop zero buf i k = k
write_loop (suc r) buf i k = write_loop r buf (i + 1) (record k {
  buffer = update k.buffer i (buf i);
  buffer_content_counter = k.buffer_content_counter + 1;
})

-- What `terminal_write` does with bytes that fit the buffer.
unfoldable pub write_and_print : Terminal → Bytes → ℤ → Terminal × ℤ
unfolding write_loop clear_buf
write_and_print t buf nbytes =
    let printed = print_buf (record t { keys = write_loop (rounds nbytes) buf 0 t.keys }) in
    (
      record (printed.0) { keys = record (clear_buf printed.0.keys) { backspacable_counter = 0 } },
      pos printed.1,
    )

-- `terminal_write`. `none` if the copy or the printing, which goes on by as many characters as have
-- been typed, runs past the end of the buffer.
unfoldable pub terminal_write : Terminal → Bytes → ℤ → Option (Terminal × ℤ)
unfolding write_and_print
terminal_write t buf nbytes =
    if ltb buf_size (t.keys.buffer_content_counter + rounds nbytes)
    then none
    else some (write_and_print t buf nbytes)

unfoldable pub terminal_open : Terminal → Terminal × ℤ
terminal_open t = (keyboard_init t, pos 0)
