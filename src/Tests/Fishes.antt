-- ===== src/Tests/Fishes.antt =====
-- fish/fish.c on two short texts and on a small array.
use project_my_os.Base.{
  ◌*◌, ◌≤◌, ◌<◌, ◌≢◌, ℕ, ◌+◌, ◌≡◌, refl, Option, none, some, List, [], ◌∷◌, ◌==◌, if◌then◌else◌,
  Bytes, ℤ, pos, negsuc, minus_one, codes, arith,
}
use project_my_os.Str.{bytes_of}
use project_my_os.SystemCall.{Outcome, returns}
use project_my_os.User.{System}
use project_my_os.Fish.Allocator.{mp1_malloc-free}
use project_my_os.Fish.{slot_location, mp1_malloc, mp1_free, back, add_frames}
use project_my_os.Fish.Lines.{lines, frames, add_char}
use project_my_os.Fish.Row.{ReadsOne, ReadsFrames}
use project_my_os.Fish.Frames.{add_frames_lem}

-- Two files, of which this is left; the first one opened is 2, the second one 3.
record Shelf : Type 0 where
  left0 : Option (List ℕ)
  left1 : Option (List ℕ)
  opened : ℕ

abbrev read_from : Option (List ℕ) → Bytes → ℤ × Option (List ℕ) × Bytes
read_from none buf = (minus_one, none, buf)
read_from (some []) buf = (pos 0, some [], buf)
read_from (some (d ∷ l)) buf = (pos 1, some l, bytes_of (d ∷ []))

abbrev shelf_read : Shelf → ℤ → Bytes → ℕ → Outcome (Shelf × ℤ × Bytes)
shelf_read k (negsuc i) buf n = returns (k, minus_one, buf)
shelf_read k (pos i) buf n =
    if i == 2
    then (let r = read_from k.left0 buf in returns (record k { left0 = r.1 }, r.0, r.2))
    else (let r = read_from k.left1 buf in returns (record k { left1 = r.1 }, r.0, r.2))

abbrev shelf_close : Shelf → ℤ → Outcome (Shelf × ℤ)
shelf_close k (negsuc i) = returns (k, minus_one)
shelf_close k (pos i) =
    if i == 2
    then returns (record k { left0 = none }, pos 0)
    else returns (record k { left1 = none }, pos 0)

abbrev shelf : System Shelf
shelf = record {
  read = shelf_read;
  write = λ k fd buf n. returns (k, minus_one);
  open_file = λ k name. returns (record k { opened = k.opened + 1 }, pos k.opened);
  close = shelf_close;
  getargs = λ k buf n. returns (k, minus_one, buf);
  execute = λ k command. returns (k, minus_one);
  vidmap = λ k p. returns (k, minus_one, none);
  call_sys = λ k mem r. returns (k, mem, minus_one);
}

read_first :
    (k : Shelf) (c : ℕ) (l : List ℕ) (s : Option (List ℕ))
    → (k.left0 ≡ some l) × (k.left1 ≡ s)
    → ReadsOne shelf (λ k s0. (k.left0 ≡ s0) × (k.left1 ≡ s)) k (pos 2) c l
read_first k c [] s p = (record k { left0 = some [] }, bytes_of (c ∷ []), rw p.0 refl, (refl, p.1))
read_first k c (d ∷ l) s p =
    (record k { left0 = some l }, bytes_of (d ∷ []), rw p.0 refl, refl, (refl, p.1))

read_second :
    (k : Shelf) (c : ℕ) (s : Option (List ℕ)) (l : List ℕ)
    → (k.left0 ≡ s) × (k.left1 ≡ some l)
    → ReadsOne shelf (λ k s1. (k.left0 ≡ s) × (k.left1 ≡ s1)) k (pos 3) c l
read_second k c s [] p = (record k { left1 = some [] }, bytes_of (c ∷ []), rw p.1 refl, (p.0, refl))
read_second k c s (d ∷ l) p =
    (record k { left1 = some l }, bytes_of (d ∷ []), rw p.1 refl, refl, (p.0, refl))

abbrev shelf-ReadsFrames : ReadsFrames shelf (pos 2) (pos 3)
shelf-ReadsFrames = record {
  IsOpen = λ k s0 s1. (k.left0 ≡ s0) × (k.left1 ≡ s1);
  read0 = read_first;
  read1 = read_second;
  close0 = λ k s s' over p. (record k { left0 = none }, pos 0, refl, (refl, p.1));
  close1 = λ k s s' over p. (record k { left1 = none }, pos 0, refl, (p.0, refl));
}

abbrev two_texts : Shelf
two_texts = record { left0 = some (codes "><>\n o"); left1 = some (codes "<><"); opened = 2 }

add_frames_lem_example :
    (k' : Shelf) × (add_frames shelf 3 7 two_texts (bytes_of []) (bytes_of [])
      ≡ returns (back k' (frames 0 (lines (codes "><>\n o")) (lines (codes "<><")))))
unfolding lines add_char
add_frames_lem_example =
    add_frames_lem shelf 2 3 shelf-ReadsFrames two_texts (record two_texts { opened = 3 })
      (record two_texts { opened = 4 }) (bytes_of []) (bytes_of []) (codes "><>\n o") (codes "<><")
      3 7 refl refl (refl, refl) (omega arith) (omega arith) (omega arith) (omega arith)

-- The array at 16, with the first slot in use.
abbrev one_blink : Bytes
one_blink a = if a == 16 then 40 else if a == 32 then 60 else 0

mp1_malloc-free_example :
    let mem' = mp1_free one_blink (16 + 16 * 1) in
    ((j : ℕ) → j ≢ 1 → slot_location mem' 16 j ≡ slot_location one_blink 16 j)
    × (j : ℕ) × (mp1_malloc mem' 16 ≡ some (16 + 16 * j))
    × (j ≤ 1)
    × (slot_location mem' 16 j ≡ 0)
    × ((m : ℕ) → m < j → slot_location one_blink 16 m ≢ 0)
mp1_malloc-free_example = mp1_malloc-free one_blink 16 1 (omega arith)
