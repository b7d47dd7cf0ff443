-- ===== src/Screen/Print.antt =====
-- puts of student-distrib/lib.c.
use project_my_os.Base.{
  ℕ, zero, suc, ◌+◌, ◌^◌, ◌<◌, ◌≡◌, some, List, [], ◌∷◌, Bytes, slice_of, arith, ap,
}
use project_my_os.Str.{IsString}
use project_my_os.Screen.{Screen, InBounds, puts_loop, puts, put_all, putc}
use project_my_os.Screen.Cursor.{putc-InBounds}

puts_loop_lem :
    (f r : ℕ) (sc : Screen) (s : Bytes) (n i : ℕ)
    → IsString s n
    → n ≡ i + r
    → n < f + i
    → puts_loop f sc s i ≡ some (put_all sc (slice_of s i r), n)
unfolding puts_loop put_all slice_of
puts_loop_lem zero r sc s n i v e l = absurd (omega arith)
puts_loop_lem (suc f) zero sc s n i v e l =
    let e' : i ≡ n = omega arith in rw (e', v.nul, puts_loop) (ap (λ k. some (sc, k)) e')
puts_loop_lem (suc f) (suc r) sc s n i v e l =
    rw (v.chars i (omega arith), puts_loop)
      (puts_loop_lem f r (putc sc (s i)) s n (i + 1) v (omega arith) (omega arith))

-- `puts` prints the characters up to the NUL, each once and in order, and returns their number.
pub puts_lem :
    (sc : Screen) (s : Bytes) (n : ℕ)
    → IsString s n
    → puts sc s ≡ some (put_all sc (slice_of s 0 n), n)
unfolding puts
puts_lem sc s n v = puts_loop_lem (2 ^ 32) n sc s n 0 v (omega arith) (omega (arith, v.fits))

-- Printing a text of any length keeps the cursor on the page.
pub put_all-InBounds : (s : Screen) (l : List ℕ) → InBounds s → InBounds (put_all s l)
unfolding put_all
put_all-InBounds s [] v = v
put_all-InBounds s (c ∷ cs) v = put_all-InBounds (putc s c) cs (putc-InBounds s c v)
