-- ===== src/Rtc/Wait.antt =====
-- How long rtc_read of student-distrib/rtc.c waits.
use project_my_os.Base.{ℕ, zero, suc, ◌≡◌, refl, none, some, List, [], ◌∷◌, ◌++◌, arith, pos, ◌∙◌}
use project_my_os.Rtc.{Rtc, Event, rtc_tick, other, rtc_handler, wait_loop, rtc_read}

-- `n` events that are no tick of the clock.
unfoldable pub others : ℕ → List Event
others zero = []
others (suc n) = other ∷ others n

wait_loop-done :
    (r : Rtc) (es : List Event) → r.rtc_interrupt_occurred ≡ 0 → wait_loop r es ≡ some (r, es)
unfolding wait_loop
wait_loop-done r [] h = rw h
wait_loop-done r (rtc_tick ∷ es) h = rw h
wait_loop-done r (other ∷ es) h = rw h

wait_loop-others :
    (n : ℕ) (r : Rtc) (es : List Event)
    → r.rtc_interrupt_occurred ≡ 1
    → wait_loop r (others n ++ es) ≡ wait_loop r es
unfolding wait_loop others
wait_loop-others zero r es h = refl
wait_loop-others (suc n) r es h = ground (arith, wait_loop-others n r es h)

wait_loop-stuck : (n : ℕ) (r : Rtc) → r.rtc_interrupt_occurred ≡ 1 → wait_loop r (others n) ≡ none
unfolding wait_loop others
wait_loop-stuck zero r h = rw h
wait_loop-stuck (suc n) r h = ground (arith, wait_loop-stuck n r h)

wait_loop-tick :
    (r : Rtc) (es : List Event)
    → r.rtc_interrupt_occurred ≡ 1
    → wait_loop r (rtc_tick ∷ es) ≡ some (record { rtc_interrupt_occurred = 0 }, es)
unfolding wait_loop rtc_handler
wait_loop-tick r es h = ground (arith, wait_loop-done (record { rtc_interrupt_occurred = 0 }) es)

-- A read returns 0 at the first tick of the clock that comes after it starts, whatever other
-- interrupts come before, and uses up nothing after that tick; with no tick it never returns.
pub rtc_read_lem :
    (r : Rtc) (n : ℕ) (es : List Event)
    → (rtc_read r (others n ++ (rtc_tick ∷ es))
        ≡ some (pos 0, record { rtc_interrupt_occurred = 0 }, es))
      × (rtc_read r (others n) ≡ none)
unfolding rtc_read
rtc_read_lem r n es =
    let start : Rtc = record { rtc_interrupt_occurred = 1 } in
    (
      rw (wait_loop-others n start (rtc_tick ∷ es) refl ∙ wait_loop-tick start es refl, rtc_read),
      rw (wait_loop-stuck n start refl, rtc_read),
    )
