-- ===== src/Paging/Loops.antt =====
-- What the filling loops of student-distrib/mypaging.c leave.
use project_my_os.Base.{
  ℕ, zero, suc, ◌+◌, ◌≡◌, not, ◌&&◌, ltb, if◌then◌else◌, update, update_lem, arith,
}
use project_my_os.Paging.{fill_loop}

pub fill_loop_lem {ℓ} :
    {A : Type ℓ} (r i : ℕ) (f a : ℕ → A) (k : ℕ)
    → fill_loop r i f a k ≡ (if not (ltb k i) && ltb k (i + r) then f k else a k)
unfolding fill_loop
fill_loop_lem zero i f a k = ground arith
fill_loop_lem (suc r) i f a k =
    ground (arith, fill_loop_lem r (i + 1) f (update a i (f i)) k, update_lem a i (f i) k)
