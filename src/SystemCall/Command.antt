-- ===== src/SystemCall/Command.antt =====
-- How execute of student-distrib/systemcall.c takes a command line apart.
use project_my_os.Base.{
  ℕ, zero, suc, ◌+◌, ◌≤◌, ◌<◌, ◌≡◌, refl, false, Option, some, ltb, ◌==◌, not, ◌&&◌, if◌then◌else◌,
  ◌>>=◌, update, update_lem, arith, Bytes, Bool-cases, inl, inr, ap, ◌∙◌,
}
use project_my_os.SystemCall.Process.{name_loop, arg_loop, parse_command}

-- A command of a name of `n` characters, which fits with its NUL, a blank, and `m` characters of
-- arguments, which fit the argument buffer with their NUL.
pub record IsCommand (command : Bytes) (n m : ℕ) : Type 0 where
  pub no_blank : (i : ℕ) → i < n → (command i == b' ') ≡ false
  pub blank : command n ≡ b' '
  pub short : n < 32
  pub chars : (j : ℕ) → j < m → (command (n + 1 + j) == 0) ≡ false
  pub nul : command (n + 1 + m) ≡ 0
  pub fits : m < 1024

arg_loop-char :
    (f i : ℕ) (command : Bytes) (c : ℕ) (buf : Bytes)
    → (command i == 0) ≡ false
    → arg_loop (suc f) i command c buf
      ≡ arg_loop f (i + 1) command (c + 1) (update buf c (command i))
unfolding arg_loop
arg_loop-char f i command c buf h = rw (h, arg_loop)

arg_loop-end :
    (f i : ℕ) (command : Bytes) (c : ℕ) (buf : Bytes)
    → command i ≡ 0
    → arg_loop (suc f) i command c buf ≡ some (buf, c)
unfolding arg_loop
arg_loop-end f i command c buf h = rw (h, arg_loop)

-- `parse_command` after its first loop, with `f` rounds for the second.
parts : ℕ → Bytes × ℕ → Bytes → Bytes → Option (Bytes × Bytes × ℕ)
parts f p command stack = arg_loop f (p.1 + 1) command 0 stack >>= λ args.
    some (update p.0 p.1 0, update args.0 args.1 0, args.1)

parts-run :
    (f : ℕ) (p : Bytes × ℕ) (command stack out : Bytes) (n m : ℕ)
    → p.1 ≡ n
    → arg_loop f (n + 1) command 0 stack ≡ some (out, m)
    → parts f p command stack ≡ some (update p.0 n 0, update out m 0, m)
unfolding parts
parts-run f p command stack out n m e ran = rw (e, ran, ◌>>=◌)

parse_command-parts :
    (command stack : Bytes)
    → parse_command command stack ≡ parts 1024 (name_loop 32 0 command stack) command stack
unfolding parse_command parts
parse_command-parts command stack = refl

module _ (command : Bytes) (n m : ℕ) (v : IsCommand command n m) where
  name_loop_lem :
      (r i : ℕ) (name : Bytes)
      → i + r ≡ 32
      → i ≤ n
      → ((name_loop r i command name).1 ≡ n)
        × ((k : ℕ)
            → (name_loop r i command name).0 k
              ≡ (if not (ltb k i) && ltb k n then command k else name k))
  unfolding name_loop
  name_loop_lem zero i name e h = absurd (omega (arith, v.short))
  name_loop_lem (suc r) i name e h = elim (Bool-cases (ltb i n)) [
    | inl inside ↦
        let ih = name_loop_lem r (i + 1) (update name i (command i)) (omega arith) (ground arith) in
        rw (v.no_blank i (ground arith), name_loop)
          (ih.0, λ k. ground (arith, ih.1 k, update_lem name i (command i) k))
    | inr end ↦
        let same : i ≡ n = ground arith in rw (same, v.blank, name_loop) (same, λ k. ground arith)
  ]

  arg_loop_lem :
      (f i c : ℕ) (buf : Bytes)
      → i ≡ n + 1 + c
      → c ≤ m
      → m < f + c
      → (out : Bytes) × (arg_loop f i command c buf ≡ some (out, m))
        × ((k : ℕ) → out k ≡ (if not (ltb k c) && ltb k m then command (n + 1 + k) else buf k))
  unfolding arg_loop
  arg_loop_lem zero i c buf e h l = absurd (omega arith)
  arg_loop_lem (suc f) i c buf e h l = elim (Bool-cases (ltb c m)) [
    | inl inside ↦
        let (out, ran, holds) =
          arg_loop_lem f (i + 1) (c + 1) (update buf c (command i)) (omega arith) (ground arith)
            (omega arith) in
        (
          out,
          arg_loop-char f i command c buf (rw e (v.chars c (ground arith))) ∙ ran,
          λ k. ground (arith, holds k, update_lem buf c (command i) k, e),
        )
    | inr end ↦
        let same : c ≡ m = ground arith in
        (
          buf,
          arg_loop-end f i command c buf (rw (e, same) v.nul) ∙ ap (λ k. some (buf, k)) same,
          λ k. ground arith,
        )
  ]

  parts_lem :
      (f : ℕ) (p : Bytes × ℕ) (stack : Bytes)
      → p.1 ≡ n
      → ((k : ℕ) → k < n → p.0 k ≡ command k)
      → m < f
      → (name : Bytes) × (args : Bytes) × (parts f p command stack ≡ some (name, args, m))
        × ((k : ℕ) → k < n → name k ≡ command k)
        × (name n ≡ 0)
        × ((k : ℕ) → k < m → args k ≡ command (n + 1 + k))
        × (args m ≡ 0)
  parts_lem f p stack e taken fuel =
      let (out, ran, holds) =
        arg_loop_lem f (n + 1) 0 stack (omega arith) (omega arith) (omega arith) in
      (
        update p.0 n 0,
        update out m 0,
        parts-run f p command stack out n m e ran,
        λ k h. ground (arith, taken k h, update_lem p.0 n 0 k),
        ground (arith, update_lem p.0 n 0 n),
        λ k h. ground (arith, holds k, update_lem out m 0 k),
        ground (arith, update_lem out m 0 m),
      )

  name_taken : (stack : Bytes) (k : ℕ) → k < n → (name_loop 32 0 command stack).0 k ≡ command k
  name_taken stack k h = ground (arith, (name_loop_lem 32 0 stack refl (omega arith)).1 k)

  -- A command line with a name of fewer than 32 characters, a blank behind it, and fewer than 1024
  -- characters after that blank is taken apart as it is written: the name, with a NUL behind it, then
  -- all the characters after the blank, with a NUL behind them, and their number.
  pub parse_command_lem :
      (stack : Bytes)
      → (name : Bytes) × (args : Bytes) × (parse_command command stack ≡ some (name, args, m))
        × ((k : ℕ) → k < n → name k ≡ command k)
        × (name n ≡ 0)
        × ((k : ℕ) → k < m → args k ≡ command (n + 1 + k))
        × (args m ≡ 0)
  parse_command_lem stack =
      let (name, args, ran, a, b, c, d) =
        parts_lem 1024 (name_loop 32 0 command stack) stack
          (name_loop_lem 32 0 stack refl (omega arith)).0 (name_taken stack) v.fits in
      (name, args, parse_command-parts command stack ∙ ran, a, b, c, d)
