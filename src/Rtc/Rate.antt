-- ===== src/Rtc/Rate.antt =====
-- The rates that rtc_write of student-distrib/rtc.c sets.
use project_my_os.Base.{
  ℕ, ◌-◌, ◌*◌, ◌^◌, ◌<◌, ◌≤◌, ◌≡◌, ◌≢◌, none, some, ltb, ◌==◌, ◌&&◌, all_below, ◌⊎◌, Option, Bool,
  not, ◌||◌,
}

-- What the switch answers at one frequency.
rate_ok : ℕ → Option ℕ → Bool
rate_ok f none = not (f == 0) && all_below 11 (λ k. k == 0 || not (f == 2 ^ k))
rate_ok f (some r) = ltb r 16 && ((f == 0 && r == 0) || (ltb 0 r && (f * 2 ^ (r - 1) == 32768)))

abbrev GoodRate : ℕ → ℕ → Type 0
GoodRate f r = (r < 16) × ((f ≡ 0) × (r ≡ 0) ⊎ (0 < r) × (f * 2 ^ (r - 1) ≡ 32768))

abbrev NoRate : ℕ → Type 0
NoRate f = (f ≢ 0) × ((k : ℕ) → 0 < k → k ≤ 10 → f ≢ 2 ^ k)
