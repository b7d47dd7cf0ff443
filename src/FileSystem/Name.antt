-- ===== src/FileSystem/Name.antt =====
-- read_dentry_by_name of student-distrib/files.c against the names as texts.
use project_my_os.Base.{
  ℕ, zero, suc, ◌+◌, ◌^◌, ◌≤◌, ◌<◌, ◌≡◌, refl, true, false, some, Bool, ltb, ◌==◌, inl, inr,
  Bool-cases, max, slice_of, arith, ◌∙◌, Bytes, IsBytes, is_zero, ◌>>=◌, leb_of_lt,
}
use project_my_os.Str.{strncmp, IsString}
use project_my_os.Str.Laws.{strlen_lem, strcpy_lem}
use project_my_os.Str.Compare.{strncmp-zero}
use project_my_os.FileSystem.{
  FileSystem, Dentry, dentry_name, dentry_filetype, dentry_inode, dentry_copy, name_size, name_loop,
  read_dentry_by_name, success, fail,
}

-- What a filled entry holds.
pub record IsEntry (fs : FileSystem) (i n : ℕ) (d : Dentry) : Type 0 where
  pub name : (k : ℕ) → k ≤ n → d.filename k ≡ dentry_name fs i k
  pub filetype : d.filetype ≡ dentry_filetype fs i
  pub inode : d.inode ≡ dentry_inode fs i

pub dentry_copy_lem :
    (fs : FileSystem) (i n : ℕ) (d : Dentry)
    → IsString (dentry_name fs i) n
    → (d' : Dentry) × (dentry_copy fs i d ≡ some d') × IsEntry fs i n d'
unfolding dentry_copy
dentry_copy_lem fs i n d v =
    let (out, e, inside, after) = strcpy_lem d.filename (dentry_name fs i) n v in
    (
      record { filename = out; filetype = dentry_filetype fs i; inode = dentry_inode fs i },
      rw (e, dentry_copy),
      record { name = inside; filetype = refl; inode = refl },
    )

-- Every name of the directory ends within reach.
pub record NamesEnd (fs : FileSystem) (len : ℕ → ℕ) : Type 0 where
  pub bytes : (i : ℕ) → IsBytes (dentry_name fs i)
  pub ends : (i : ℕ) → i < 63 → IsString (dentry_name fs i) (len i)
  pub short : (i : ℕ) → i < 63 → len i < 2 ^ 31

-- Entry `i` has the name.
abbrev pub HasName : FileSystem → (ℕ → ℕ) → Bytes → ℕ → ℕ → Type 0
HasName fs len fname m i = slice_of (dentry_name fs i) 0 (len i) ≡ slice_of fname 0 m

module _ (fs : FileSystem) (len : ℕ → ℕ) (fname : Bytes) (m : ℕ) (names : NamesEnd fs len)
    (fb : IsBytes fname) (fv : IsString fname m) (fs31 : m < 2 ^ 31) where
  name_size_lem : (n : ℕ) → n < 2 ^ 31 → name_size m n ≡ max n m
  unfolding name_size
  name_size_lem n h = ground arith

  entry_zero : ℕ → Bool
  entry_zero i = is_zero (strncmp (dentry_name fs i) fname (max (len i) m))

  name_loop-round :
      (d : Dentry) (r i : ℕ)
      → i < 63
      → name_loop fs fname d (suc r) i ≡ (elim (entry_zero i) [
        | true ↦ dentry_copy fs i d >>= λ d'. some (success, d')
        | false ↦ name_loop fs fname d r (i + 1)
      ])
  unfolding name_loop entry_zero
  name_loop-round d r i h = rw (
    strlen_lem fname m fv,
    strlen_lem (dentry_name fs i) (len i) (names.ends i h),
    ◌>>=◌,
    name_size_lem (len i) (names.short i h),
  )

  entry_zero-hit : (i : ℕ) → i < 63 → HasName fs len fname m i → entry_zero i ≡ true
  unfolding entry_zero
  entry_zero-hit i h same =
      (strncmp-zero (dentry_name fs i) fname (len i) m (names.bytes i) fb (names.ends i h) fv).1
        same

  entry_zero-miss : (i : ℕ) → i < 63 → ¬ HasName fs len fname m i → entry_zero i ≡ false
  unfolding entry_zero
  entry_zero-miss i h other = elim (Bool-cases (entry_zero i)) [
    | inl z ↦ absurd (
        other (
          (strncmp-zero (dentry_name fs i) fname (len i) m (names.bytes i) fb (names.ends i h) fv).0
            z))
    | inr z ↦ z
  ]

  name_loop-hit :
      (d : Dentry) (r i : ℕ)
      → i < 63
      → HasName fs len fname m i
      → name_loop fs fname d (suc r) i ≡ (dentry_copy fs i d >>= λ d'. some (success, d'))
  name_loop-hit d r i h same = rw (name_loop-round d r i h, entry_zero-hit i h same)

  name_loop-miss :
      (d : Dentry) (r i : ℕ)
      → i < 63
      → ¬ HasName fs len fname m i
      → name_loop fs fname d (suc r) i ≡ name_loop fs fname d r (i + 1)
  name_loop-miss d r i h other = rw (name_loop-round d r i h, entry_zero-miss i h other)

  name_loop-first :
      (d : Dentry) (r i k : ℕ)
      → i + r ≡ 63
      → i ≤ k
      → k < 63
      → HasName fs len fname m k
      → ((j : ℕ) → j < k → ¬ HasName fs len fname m j)
      → name_loop fs fname d r i ≡ (dentry_copy fs k d >>= λ d'. some (success, d'))
  name_loop-first d zero i k e l h same before = absurd (omega arith)
  name_loop-first d (suc r) i k e l h same before = elim (Bool-cases (ltb i k)) [
    | inl lt ↦
        name_loop-miss d r i (omega arith) (before i (ground arith))
        ∙ name_loop-first d r (i + 1) k (omega arith) (ground arith) h same before
    | inr ge ↦
        let here : k ≡ i = ground arith in
        rw here (name_loop-hit d r i (omega arith) (rw here at same))
  ]

  name_loop-none :
      (d : Dentry) (r i : ℕ)
      → i + r ≡ 63
      → ((j : ℕ) → j < 63 → ¬ HasName fs len fname m j)
      → name_loop fs fname d r i ≡ some (fail, d)
  unfolding name_loop
  name_loop-none d zero i e none_has = refl
  name_loop-none d (suc r) i e none_has =
      name_loop-miss d r i (omega arith) (none_has i (omega arith))
      ∙ name_loop-none d r (i + 1) (omega arith) none_has

  search_starts : (d : Dentry) → 0 < m → read_dentry_by_name fs fname d ≡ name_loop fs fname d 63 0
  unfolding read_dentry_by_name
  search_starts d h =
      let e : (m == 0) ≡ false = ground arith in
      rw (strlen_lem fname m fv, ◌>>=◌, e, leb_of_lt (2 ^ 31) m fs31)

  -- Where every name of the directory ends, and for a name that is not empty, all of less than 2 ^
  -- 31 characters, the search finds the first of the 63 entries whose name is the text asked for,
  -- and fills the caller's entry from it: name, type and inode number.
  pub read_dentry_by_name_found :
      (d : Dentry) (k : ℕ)
      → 0 < m
      → k < 63
      → HasName fs len fname m k
      → ((j : ℕ) → j < k → ¬ HasName fs len fname m j)
      → (d' : Dentry) × (read_dentry_by_name fs fname d ≡ some (success, d'))
        × IsEntry fs k (len k) d'
  read_dentry_by_name_found d k h hk same before =
      let (d', e, entry) = dentry_copy_lem fs k (len k) d (names.ends k hk) in
      (
        d',
        search_starts d h ∙ name_loop-first d 63 0 k refl (omega arith) hk same before ∙ rw e,
        entry,
      )

  -- Where every name of the directory ends, and for a name that is not empty, all of less than 2 ^
  -- 31 characters, if none of the 63 entries has the name asked for, then the search fails and
  -- leaves the caller's entry.
  pub read_dentry_by_name_missing :
      (d : Dentry)
      → 0 < m
      → ((j : ℕ) → j < 63 → ¬ HasName fs len fname m j)
      → read_dentry_by_name fs fname d ≡ some (fail, d)
  read_dentry_by_name_missing d h none_has = search_starts d h ∙ name_loop-none d 63 0 refl none_has
