-- ===== src/Keyboard/Line.antt =====
-- The line that is being typed, as a list of characters: what each key does to it, and what a
-- reader gets.
use project_my_os.Base.{
  ℕ, zero, suc, ◌+◌, ◌-◌, ◌≤◌, ◌<◌, ◌≡◌, refl, List, [], ◌∷◌, ◌++◌, ltb, ◌==◌, if◌then◌else◌,
  update, update_lem, zero_loop_lem, slice_of, slice_of-eq, slice_of-suc, arith, ap, ap₂, ◌∙◌,
  Bool-cases, inl, inr,
}
use native.Mathlib.Numerals.{add-one}
use project_my_os.Screen.{putc}
use project_my_os.Keyboard.{Keyboard, Terminal, clear_storage_buf}
use project_my_os.Keyboard.Tables.{key}
use project_my_os.Keyboard.Handler.{
  store_loop, store_line, drop_last, chosen, add_char, press_letter, press,
}

abbrev pub line : Keyboard → List ℕ
line k = slice_of k.buffer 0 k.buffer_content_counter

-- What a reader would take.
abbrev pub stored : Keyboard → List ℕ
stored k = slice_of k.storage_buffer 0 k.storage_buffer_counter

-- The counters that keep every store of the keyboard inside its two buffers of 1024.
pub record IsValid (k : Keyboard) : Type 0 where
  pub line_fits : k.buffer_content_counter ≤ 128
  pub storage_fits : k.storage_buffer_counter ≤ 129

store_loop-counter :
    (r i : ℕ) (k : Keyboard)
    → (store_loop r i k).storage_buffer_counter ≡ k.storage_buffer_counter + r
unfolding store_loop
store_loop-counter zero i k = omega arith
store_loop-counter (suc r) i k = omega (arith, store_loop-counter r (i + 1) _)

store_loop-storage :
    (r i : ℕ) (k : Keyboard) (j : ℕ)
    → (store_loop r i k).storage_buffer j ≡ (
        if ltb j i
        then k.storage_buffer j
        else if ltb j (i + r)
        then k.buffer j
        else k.storage_buffer j)
unfolding store_loop
store_loop-storage zero i k j = ground arith
store_loop-storage (suc r) i k j = ground (
  arith,
  store_loop-storage r (i + 1)
      (record k {
        storage_buffer = update k.storage_buffer i (k.buffer i);
        storage_buffer_counter = k.storage_buffer_counter + 1;
      })
      j,
  update_lem k.storage_buffer i (k.buffer i) j,
)

store_line-storage :
    (k : Keyboard) (j : ℕ)
    → j < 1024
    → (store_line k).storage_buffer j ≡ (
        if ltb j k.buffer_content_counter
        then k.buffer j
        else if j == k.buffer_content_counter
        then 0x0A
        else 0)
unfolding store_line
store_line-storage k j h = ground (
  arith,
  store_loop-storage k.buffer_content_counter 0
      (clear_storage_buf (record k { backspacable_counter = 0; readable_flag = 0 })) j,
  zero_loop_lem 1024 0 k.storage_buffer j,
  update_lem
      (store_loop k.buffer_content_counter 0 (
        clear_storage_buf
          (record k { backspacable_counter = 0; readable_flag = 0 }))).storage_buffer
      k.buffer_content_counter 0x0A j,
)

pub store_line-counter :
    (k : Keyboard) → (store_line k).storage_buffer_counter ≡ k.buffer_content_counter + 1
unfolding store_line
store_line-counter k = omega (
  arith,
  store_loop-counter k.buffer_content_counter 0
      (clear_storage_buf (record k { backspacable_counter = 0; readable_flag = 0 })),
)

pub store_line-ready :
    (k : Keyboard)
    → ((store_line k).readable_flag ≡ 1) × ((store_line k).buffer_content_counter ≡ 0)
unfolding store_line
store_line-ready k = (refl, refl)

pub press-IsValid : (t : Terminal) (code : ℕ) → IsValid t.keys → IsValid (press t code).keys
unfolding press add_char drop_last
press-IsValid t code v = ground (arith, store_line-counter t.keys, store_line-ready t.keys)

-- What ENTER stores is the line with a line end behind it.
pub stored-store_line :
    (k : Keyboard) → k.buffer_content_counter < 1023 → stored (store_line k) ≡ line k ++ 0x0A ∷ []
stored-store_line k h =
    let n : ℕ = k.buffer_content_counter in
    ap (slice_of (store_line k).storage_buffer 0) (store_line-counter k ∙ add-one n)
    ∙ slice_of-suc (store_line k).storage_buffer 0 n
    ∙ ap₂ ◌++◌ (slice_of-eq _ _ 0 n (λ j a b. ground (arith, store_line-storage k j)))
        (ap (λ c. c ∷ []) (ground (arith, store_line-storage k (0 + n))))

pub line-add_char : (k : Keyboard) (c : ℕ) → line (add_char k c) ≡ line k ++ c ∷ []
unfolding add_char
line-add_char k c =
    let n : ℕ = k.buffer_content_counter in
    ap (slice_of (update k.buffer n c) 0) (add-one n)
    ∙ slice_of-suc (update k.buffer n c) 0 n
    ∙ ap₂ ◌++◌ (slice_of-eq _ _ 0 n (λ j a b. ground (arith, update_lem k.buffer n c j)))
        (ap (λ x. x ∷ []) (ground (arith, update_lem k.buffer n c (0 + n))))

pub line-drop_last :
    (k : Keyboard) → line (drop_last k) ≡ slice_of k.buffer 0 (k.buffer_content_counter - 1)
unfolding drop_last
line-drop_last k =
    let n : ℕ = k.buffer_content_counter in
    elim (Bool-cases (ltb 0 n)) [
      | inl some_left ↦
          rw some_left
            (slice_of-eq _ _ 0 (n - 1) (λ j a b. ground (arith, update_lem k.buffer (n - 1) 0 j)))
      | inr empty ↦ rw empty (ap (slice_of k.buffer 0) (ground arith))
    ]

-- A letter key adds its character to the end of the line, and prints it, while the line has fewer
-- than 128 characters; from then on it changes neither.
pub press_letter_lem :
    (t : Terminal) (code : ℕ)
    → let u = press_letter t code in
      let c = key (chosen t.keys) code in
      (line u.keys
        ≡ (if ltb t.keys.buffer_content_counter 128 then line t.keys ++ c ∷ [] else line t.keys))
      × (u.screen ≡ (if ltb t.keys.buffer_content_counter 128 then putc t.screen c else t.screen))
unfolding press_letter
press_letter_lem t code = elim (Bool-cases (ltb t.keys.buffer_content_counter 128)) [
  | inl room ↦ rw room (line-add_char t.keys (key (chosen t.keys) code), refl)
  | inr full ↦ rw full (refl, refl)
]
