-- ===== src/User/Cat.antt =====
-- syscalls/ece391cat.c: the file named by the argument goes to the terminal.
use project_my_os.Base.{
  ℕ, zero, suc, ◌≤◌, ◌<◌, ◌≡◌, refl, sym, ◌∙◌, ap, ap₂, ◌==◌, not, false, if◌then◌else◌, Bytes, ℤ,
  pos, List, [], ◌∷◌, ◌++◌, length, slice_of, take, drop, take-append-drop, length-take,
  length-drop, is_zero, is_minus_one, codes, arith,
}
use project_my_os.Str.{bytes_of}
use project_my_os.Screen.{Screen, putc, put_all}
use project_my_os.SystemCall.{Outcome, returns, endless, ◌>>>◌}
use project_my_os.User.{System}
use project_my_os.User.Support.{ece391_fdputs}

module _ {K : Type 0} (sys : System K) where
  -- `while (0 != (cnt = ece391_read (fd, buf, 1024)))`, with `f` rounds of fuel.
  unfoldable pub cat_loop : ℕ → K → ℤ → Bytes → Outcome (K × ℤ)
  unfolding ece391_fdputs
  cat_loop zero k fd buf = endless
  cat_loop (suc f) k fd buf = sys.read k fd buf 1024 >>> λ r.
      if is_zero r.1
      then returns (r.0, pos 0)
      else if is_minus_one r.1
      then (ece391_fdputs sys r.0 (pos 1) (bytes_of (codes "file read failed\n")) >>> λ k1.
          returns (k1, pos 3))
      else (sys.write r.0 (pos 1) r.2 r.1 >>> λ w.
          let rest = cat_loop f w.0 fd r.2 in
          if is_minus_one w.1 then returns (w.0, pos 3) else rest)

  unfoldable pub cat : ℕ → K → Bytes → Outcome (K × ℤ)
  unfolding cat_loop ece391_fdputs
  cat f k stack = sys.getargs k stack 1024 >>> λ a.
      if not (is_zero a.1)
      then (ece391_fdputs sys a.0 (pos 1) (bytes_of (codes "could not read arguments\n")) >>> λ k1.
          returns (k1, pos 3))
      else (sys.open_file a.0 a.2 >>> λ o.
          if is_minus_one o.1
          then (ece391_fdputs sys o.0 (pos 1) (bytes_of (codes "file not found\n")) >>> λ k1.
              returns (k1, pos 2))
          else cat_loop f o.0 o.1 a.2)

suc-ne_zero : (n : ℕ) → (suc n == 0) ≡ false
suc-ne_zero n = ground arith

take-nil : (n : ℕ) → length (take {A = ℕ} n []) ≡ 0
unfolding take
take-nil zero = refl
take-nil (suc n) = refl

put_all-nil : (s : Screen) → put_all s [] ≡ s
unfolding put_all
put_all-nil s = refl

put_all-append : (s : Screen) (l m : List ℕ) → put_all (put_all s l) m ≡ put_all s (l ++ m)
unfolding put_all
put_all-append s [] m = refl
put_all-append s (c ∷ cs) m = put_all-append (putc s c) cs m

-- What cat relies on: a state of a system in which descriptor `fd` is open, with `left` the bytes
-- that are left to read, and a screen on which the writes to descriptor 1 come out.
pub record Reads {K : Type 0} (sys : System K) : Type 1 where
  pub IsOpen : K → ℤ → List ℕ → Type 0
  pub screen : K → Screen
  pub read_law :
      (k : K) (fd : ℤ) (buf : Bytes) (left : List ℕ)
      → IsOpen k fd left
      → let got = take 1024 left in
        (k' : K) × (buf' : Bytes) × (sys.read k fd buf 1024 ≡ returns (k', pos (length got), buf'))
        × (slice_of buf' 0 (length got) ≡ got)
        × IsOpen k' fd (drop 1024 left)
        × (screen k' ≡ screen k)
  pub write_law :
      (k : K) (fd : ℤ) (buf : Bytes) (n : ℕ) (left : List ℕ)
      → IsOpen k fd left
      → n ≤ 1024
      → (k' : K) × (w : ℕ) × (sys.write k (pos 1) buf (pos n) ≡ returns (k', pos w))
        × IsOpen k' fd left
        × (screen k' ≡ put_all (screen k) (slice_of buf 0 n))

module _ {K : Type 0} (sys : System K) (laws : Reads sys) where
  first_lem :
      (c : ℕ) (cs : List ℕ) (k k' k'' : K) (fd : ℤ) (buf buf' : Bytes)
      → sys.read k fd buf 1024 ≡ returns (k', pos (length (take 1024 (c ∷ cs))), buf')
      → sys.read k fd buf 1024 ≡ returns (k', pos (suc (length (take 1023 cs))), buf')
  unfolding take
  first_lem c cs k k' k'' fd buf buf' e = e

  second_lem :
      (c : ℕ) (cs : List ℕ) (k k' k'' : K) (fd : ℤ) (buf buf' : Bytes) (w : ℕ)
      → sys.write k' (pos 1) buf' (pos (length (take 1024 (c ∷ cs)))) ≡ returns (k'', pos w)
      → sys.write k' (pos 1) buf' (pos (suc (length (take 1023 cs)))) ≡ returns (k'', pos w)
  unfolding take
  second_lem c cs k k' k'' fd buf buf' w e = e

  cat_loop-end :
      (f : ℕ) (k k' : K) (fd : ℤ) (buf buf' : Bytes)
      → sys.read k fd buf 1024 ≡ returns (k', pos 0, buf')
      → cat_loop sys (suc f) k fd buf ≡ returns (k', pos 0)
  unfolding cat_loop
  cat_loop-end f k k' fd buf buf' e = rw (e, ◌>>>◌) refl

  cat_loop-next :
      (f : ℕ) (k k' k'' : K) (fd : ℤ) (buf buf' : Bytes) (n w : ℕ)
      → sys.read k fd buf 1024 ≡ returns (k', pos (suc n), buf')
      → sys.write k' (pos 1) buf' (pos (suc n)) ≡ returns (k'', pos w)
      → cat_loop sys (suc f) k fd buf ≡ cat_loop sys f k'' fd buf'
  unfolding cat_loop
  cat_loop-next f k k' k'' fd buf buf' n w e e' =
      rw (e, ◌>>>◌) (rw (suc-ne_zero n) (rw (e', ◌>>>◌) refl))

  abbrev Printed : K → ℤ → List ℕ → Outcome (K × ℤ) → Type 0
  Printed k fd left m =
      (k' : K) × (m ≡ returns (k', pos 0)) × (laws.screen k' ≡ put_all (laws.screen k) left)

  -- With a round for each byte left and one more, the loop prints all that is left and ends well.
  pub cat_loop_lem :
      (f : ℕ) (k : K) (fd : ℤ) (buf : Bytes) (left : List ℕ)
      → length left < f
      → laws.IsOpen k fd left
      → Printed k fd left (cat_loop sys f k fd buf)
  cat_loop_lem zero k fd buf left h open_left = absurd (omega arith)
  cat_loop_lem (suc f) k fd buf [] h open_left =
      let (k', buf', e, bytes, still, shown) = laws.read_law k fd buf [] open_left in
      (
        k',
        cat_loop-end f k k' fd buf buf' (rw (take-nil 1024) at e),
        shown ∙ sym (put_all-nil (laws.screen k)),
      )
  cat_loop_lem (suc f) k fd buf (c ∷ cs) h open_left =
      let (k', buf', e, bytes, still, shown) = laws.read_law k fd buf (c ∷ cs) open_left in
      let got : List ℕ = take 1024 (c ∷ cs) in
      let rest : List ℕ = drop 1024 (c ∷ cs) in
      let (k'', w, e', still', shown') =
        laws.write_law k' fd buf' (length got) rest still
          (omega (arith, length-take {0} 1024 (c ∷ cs))) in
      let (last, ends, all) =
        cat_loop_lem f k'' fd buf' rest (omega (arith, length-drop {0} 1024 (c ∷ cs))) still' in
      (
        last,
        cat_loop-next f k k' k'' fd buf buf' (length (take 1023 cs)) w
              (first_lem c cs k k' k'' fd buf buf' e) (second_lem c cs k k' k'' fd buf buf' w e')
            ∙ ends,
        all
            ∙ ap (λ s. put_all s rest) (shown' ∙ ap₂ put_all shown bytes)
            ∙ put_all-append (laws.screen k) got rest
            ∙ ap (put_all (laws.screen k)) (take-append-drop 1024 (c ∷ cs)),
      )
