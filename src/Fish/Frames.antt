-- ===== src/Fish/Frames.antt =====
-- add_frames of fish/fish.c, over any system that reads files character by character.
use project_my_os.Base.{
  ℕ, zero, suc, ◌+◌, ◌<◌, ◌≡◌, refl, sym, ap, Bool, true, false, ◌&&◌, Option, none, some, List, [],
  ◌++◌, length, ◌==◌, Bytes, ℤ, pos, arith,
}
use project_my_os.SystemCall.{Outcome, returns, ◌>>>◌}
use project_my_os.User.{System}
use project_my_os.Fish.{Mp1Call, Ended, back, end_row, rows_loop, is_negative, add_frames}
use project_my_os.Fish.Lines.{
  lines, cells, frames, lines_left, lines_lem, line_of, behind, size, length-line_of, size-behind,
  length-lines_left, frames-behind,
}
use project_my_os.Fish.Row.{
  IsOver, closed, ReadsFrames, RowOver, more_lines, no_lines, Side, within, line_over, append_nil,
  append_assoc, RowEnds, RowLaw, row_lem,
}

module _ {K : Type 0} (sys : System K) (fd0 fd1 : ℤ) (laws : ReadsFrames sys fd0 fd1) where
  -- At the start of a row: a file that is over is closed, and its character stays at the line end.
  Start : ℕ → Bool → Option (List ℕ) → Option (List ℕ) → Type 0
  Start c e s none = (e ≡ true) × (s ≡ none) × ((c == b'\n') ≡ true)
  Start c e s (some l) = (e ≡ false) × (s ≡ some l) × ((c == b'\n') ≡ false)

  Start-Side :
      (c : ℕ) (e : Bool) (s n : Option (List ℕ)) → Start c e s n → Side c e s (line_of n) (behind n)
  unfolding Start line_of behind
  Start-Side c e s none (over, gone, end) = rw (over, gone) (line_over end (no_lines closed))
  Start-Side c e s (some l) (on, open_at, letter) = rw (on, open_at) (within letter)

  -- The end of a row for one file: closed if it is over.
  end_row_lem :
      (P : K → Option (List ℕ) → Type 0) (fd : ℤ) (k : K) (e : Bool) (s n : Option (List ℕ))
      → ((k : K) (s : Option (List ℕ))
          → IsOver s
          → P k s
          → (k' : K) × (r : ℤ) × (sys.close k fd ≡ returns (k', r)) × P k' none)
      → RowOver e s n
      → P k s
      → (k' : K) × (c : ℕ) × (s' : Option (List ℕ)) × (end_row sys k fd e ≡ returns (k', c))
        × P k' s'
        × Start c e s' n
  unfolding end_row Start
  end_row_lem P fd k _ s n close_law more_lines p = (k, b'0', s, refl, p, (refl, refl, refl))
  end_row_lem P fd k _ s n close_law (no_lines over) p =
      let (k', r, e, p') = close_law k s over p in
      (k', b'\n', none, rw (e, ◌>>>◌) refl, p', (refl, refl, refl))

  -- All rows have been run, with these calls.
  RowsEnd : Outcome (Ended K) → List Mp1Call → Type 0
  RowsEnd o calls = (k' : K) × (o ≡ returns (back k' calls))

  -- What is shown of the rows, for some fuel.
  RowsLaw : ℕ → ℕ → Type 0
  RowsLaw f g =
      (k : K) (row c0 c1 : ℕ) (e0 e1 : Bool) (s0 s1 n0 n1 : Option (List ℕ)) (calls : List Mp1Call)
      → laws.IsOpen k s0 s1
      → Start c0 e0 s0 n0
      → Start c1 e1 s1 n1
      → length (lines_left n0) < f
      → length (lines_left n1) < f
      → size n0 < g
      → size n1 < g
      → RowsEnd (rows_loop sys f g k fd0 fd1 row c0 c1 e0 e1 calls)
          (calls ++ frames row (lines_left n0) (lines_left n1))

  RowsEnd-same :
      (o : Outcome (Ended K)) (calls calls' : List Mp1Call)
      → calls ≡ calls'
      → RowsEnd o calls
      → RowsEnd o calls'
  RowsEnd-same o calls calls' e h = rw (← e) h

  rows_step :
      (f g : ℕ)
      → RowsLaw f g
      → (k : K) (row c0 c1 : ℕ) (e0 e1 : Bool) (s0 s1 n0 n1 : Option (List ℕ))
        (calls : List Mp1Call)
      → (e0 && e1) ≡ false
      → 0 < length (lines_left n0) + length (lines_left n1)
      → laws.IsOpen k s0 s1
      → Start c0 e0 s0 n0
      → Start c1 e1 s1 n1
      → length (lines_left n0) < suc f
      → length (lines_left n1) < suc f
      → size n0 < g
      → size n1 < g
      → RowsEnd
          (rows_loop sys (suc f) g k fd0 fd1 row c0 c1 e0 e1 calls)
          (calls ++ frames row (lines_left n0) (lines_left n1))
  unfolding rows_loop RowsLaw RowEnds RowLaw RowsEnd
  rows_step f g law k row c0 c1 e0 e1 s0 s1 n0 n1 calls on some_left p st0 st1 f0 f1 g0 g1 =
      let (k1, d0, d1, t0, t1, e, p1, over0, over1) =
        row_lem sys fd0 fd1 laws g k row 0 c0 c1 e0 e1 s0 s1 (behind n0) (behind n1) (line_of n0)
          (line_of n1) calls p (Start-Side c0 e0 s0 n0 st0) (Start-Side c1 e1 s1 n1 st1)
          (omega (arith, length-line_of n0)) (omega (arith, length-line_of n1)) in
      let (k2, b0, u0, e', p2, st0') =
        end_row_lem (λ k s. laws.IsOpen k s t1) fd0 k1 d0 t0 (behind n0)
          (λ k s o q. laws.close0 k s t1 o q) over0 p1 in
      let (k3, b1, u1, e'', p3, st1') =
        end_row_lem (λ k s. laws.IsOpen k u0 s) fd1 k2 d1 t1 (behind n1)
          (λ k s o q. laws.close1 k u0 s o q) over1 p2 in
      rw (on, e, ◌>>>◌, e', ◌>>>◌, e'', ◌>>>◌, frames-behind row n0 n1 some_left)
        (RowsEnd-same _ _ _ (append_assoc calls _ _) (
          law k3 (row + 1) b0 b1 d0 d1 u0 u1 (behind n0) (behind n1)
            (calls ++ cells row 0 (line_of n0) (line_of n1)) p3 st0' st1'
            (omega (arith, length-lines_left n0)) (omega (arith, length-lines_left n1))
            (omega (arith, size-behind n0)) (omega (arith, size-behind n1))))

  rows_lem : (f g : ℕ) → RowsLaw f g
  unfolding RowsLaw RowsEnd Start rows_loop lines_left frames
  rows_lem zero g k row c0 c1 e0 e1 s0 s1 n0 n1 calls p st0 st1 f0 f1 g0 g1 = absurd (omega arith)
  rows_lem (suc f) g k row c0 c1 e0 e1 s0 s1 none none calls p st0 st1 f0 f1 g0 g1 = (
    k,
    rw (st0.0, st1.0) (ap (λ (l : List Mp1Call). returns (back k l)) (sym (append_nil calls))),
  )
  rows_lem (suc f) g k row c0 c1 e0 e1 s0 s1 none (some m) calls p st0 st1 f0 f1 g0 g1 =
      rows_step f g (rows_lem f g) k row c0 c1 e0 e1 s0 s1 none (some m) calls
        (rw (st0.0, st1.0) refl) (omega (arith, ap length (lines_lem m))) p st0 st1 f0 f1 g0 g1
  rows_lem (suc f) g k row c0 c1 e0 e1 s0 s1 (some l) n1 calls p st0 st1 f0 f1 g0 g1 =
      rows_step f g (rows_lem f g) k row c0 c1 e0 e1 s0 s1 (some l) n1 calls (rw st0.0 refl)
        (omega (arith, ap length (lines_lem l))) p st0 st1 f0 f1 g0 g1

-- If both files can be opened, and the system reads them to their ends and closes them, then
-- add_frames returns, and it has added exactly the blinks of the two texts side by side: line by
-- line and column by column, with blanks behind the end of a shorter line and for the lines of a
-- shorter text, and none where both show a blank; with a round for each line of a text and one more,
-- and a round for each character of a text and one more.
pub add_frames_lem :
    {K : Type 0} (sys : System K) (n m : ℕ) (laws : ReadsFrames sys (pos n) (pos m)) (k k0 k1 : K)
    (f0 f1 : Bytes) (l0 l1 : List ℕ) (f g : ℕ)
    → sys.open_file k f0 ≡ returns (k0, pos n)
    → sys.open_file k0 f1 ≡ returns (k1, pos m)
    → laws.IsOpen k1 (some l0) (some l1)
    → length (lines l0) < f
    → length (lines l1) < f
    → length l0 < g
    → length l1 < g
    → (k' : K) × (add_frames sys f g k f0 f1 ≡ returns (back k' (frames 0 (lines l0) (lines l1))))
unfolding add_frames is_negative RowsLaw RowsEnd Start lines_left
add_frames_lem sys n m laws k k0 k1 f0 f1 l0 l1 f g e e' p h0 h1 h2 h3 =
    let (k', r) =
      rows_lem sys (pos n) (pos m) laws f g k1 0 b'0' b'0' false false (some l0) (some l1) (some l0)
        (some l1) [] p (refl, refl, refl) (refl, refl, refl) h0 h1 h2 h3 in
    (k', rw (e, ◌>>>◌, e') r)
