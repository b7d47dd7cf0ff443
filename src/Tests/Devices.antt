-- ===== src/Tests/Devices.antt =====
-- The interrupt controller and the clock of student-distrib on small inputs.
use project_my_os.Base.{ℕ, ◌≡◌, none, some, [], ◌∷◌, pos, arith}
use project_my_os.Pic.{Pic}
use project_my_os.Pic.Masks.{IsPic}
use project_my_os.Rtc.{rtc_tick, other, rtc_read}
use project_my_os.Rtc.Wait.{others, rtc_read_lem}

-- Every line is closed but the keyboard's.
abbrev lines : Pic
lines = record { master_mask = 0xFD; slave_mask = 0xFF }

lines-IsPic : IsPic lines
lines-IsPic = record { master = omega arith; slave = omega arith }

abbrev hertz : ℕ
hertz = 32

abbrev four : ℕ
four = 4

rtc_read_lem_example :
    (rtc_read (record { rtc_interrupt_occurred = 0 }) (other ∷ other ∷ rtc_tick ∷ other ∷ [])
      ≡ some (pos 0, record { rtc_interrupt_occurred = 0 }, other ∷ []))
    × (rtc_read (record { rtc_interrupt_occurred = 0 }) (other ∷ other ∷ []) ≡ none)
unfolding others
rtc_read_lem_example = rtc_read_lem (record { rtc_interrupt_occurred = 0 }) 2 (other ∷ [])
