-- ===== src/Str/Reverse.antt =====
-- strrev of student-distrib/lib.c.
use project_my_os.Base.{
  ℕ, zero, suc, ◌+◌, ◌-◌, ◌≤◌, ◌<◌, ◌≡◌, not, ◌&&◌, some, inl, inr, ltb, if◌then◌else◌, Bool-cases,
  Bytes, update, arith,
}
use project_my_os.Str.{swap, strrev_loop, strrev, IsString}
use project_my_os.Str.Laws.{strlen_lem}

swap_lem :
    (s : Bytes) (beg end k : ℕ)
    → beg < end
    → ((k ≡ beg) → swap s beg end k ≡ s end)
      × ((k ≡ end) → swap s beg end k ≡ s beg)
      × (k < beg → swap s beg end k ≡ s k)
      × (end < k → swap s beg end k ≡ s k)
      × (beg < k → k < end → swap s beg end k ≡ s k)
unfolding swap update
swap_lem s beg end k h = (
  λ e. ground arith,
  λ e. ground arith,
  λ e. ground arith,
  λ e. ground arith,
  λ e f. ground arith,
)

strrev_loop_lem :
    (s : Bytes) (beg end k : ℕ)
    → strrev_loop s beg end k
      ≡ (if not (ltb k beg) && not (ltb end k) then s (beg + end - k) else s k)
unfolding strrev_loop swap update
strrev_loop_lem s beg zero k = ground arith
strrev_loop_lem s beg (suc end) k = elim (Bool-cases (ltb beg (suc end))) [
  | inl lt ↦
      rw (lt, strrev_loop) (ground (arith, strrev_loop_lem (swap s beg (suc end)) (beg + 1) end k))
  | inr ge ↦ rw (ge, strrev_loop) (ground arith)
]

-- `strrev` reverses the string in place and leaves what follows it.
pub strrev_lem :
    (s : Bytes) (n : ℕ)
    → IsString s n
    → (out : Bytes) × (strrev s ≡ some out)
      × ((k : ℕ) → k < n → out k ≡ s (n - 1 - k))
      × ((k : ℕ) → n ≤ k → out k ≡ s k)
unfolding strrev
strrev_lem s n v = (
  strrev_loop s 0 (n - 1),
  rw (strlen_lem s n v, strrev),
  λ k h. ground (arith, strrev_loop_lem s 0 (n - 1) k),
  λ k h. ground (arith, strrev_loop_lem s 0 (n - 1) k),
)
