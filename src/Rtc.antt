-- ===== src/Rtc.antt =====
-- The real time clock of student-distrib/rtc.c: the flag that a read waits on, the bytes sent to
-- the ports, in order, as (port, byte). A byte that the program reads from the clock is an argument.
pub mod Rate
pub mod Wait
use project_my_os.Base.{
  ℕ, zero, suc, ◌+◌, ◌%◌, ◌^◌, Bool, true, false, Option, none, some, List, [], ◌∷◌, ◌++◌, ltb,
  ◌==◌, if◌then◌else◌, bit_and, bit_or, ℤ, pos, negsuc, minus_one,
}
use project_my_os.Pic.{Pic, enable_irq, send_eoi}

abbrev pub rtc_irq : ℕ
rtc_irq = 8

abbrev pub rtc_port : ℕ
rtc_port = 0x70

abbrev pub cmos_port : ℕ
cmos_port = 0x71

abbrev pub rega : ℕ
rega = 0x8A

abbrev pub regb : ℕ
regb = 0x8B

abbrev pub regc : ℕ
regc = 0x8C

abbrev pub reset_rv : ℕ
reset_rv = 0xf0

-- `rtc_interrupt_occurred`
pub record Rtc : Type 0 where
  pub rtc_interrupt_occurred : ℕ

-- The writes that set register A to the rate, given the byte read from it.
unfoldable pub set_rate : ℕ → ℕ → List (ℕ × ℕ)
set_rate prev rate =
    (rtc_port, rega) ∷ (rtc_port, rega) ∷ (cmos_port, bit_or (bit_and prev reset_rv) rate) ∷ []

-- `rtc_init`, given the bytes read from registers B and A.
unfoldable pub rtc_init : Pic → ℕ → ℕ → Pic × List (ℕ × ℕ)
unfolding set_rate
rtc_init p prev_b prev_a =
    let slave = enable_irq p 2 in
    let clock = enable_irq slave.0 rtc_irq in
    (
      clock.0,
      ((rtc_port, regb) ∷ (rtc_port, regb) ∷ (cmos_port, bit_or prev_b 0x40) ∷ [])
          ++ (set_rate prev_a 0x0f ++ (slave.1 ++ clock.1)),
    )

unfoldable pub rtc_handler : Rtc → Rtc × List (ℕ × ℕ)
rtc_handler r = (record { rtc_interrupt_occurred = 0 }, (rtc_port, regc) ∷ send_eoi rtc_irq)

-- What can come while `rtc_read` spins.
pub data Event : Type 0 where
  rtc_tick other : Event

-- The loop of `rtc_read`: the events it has not used up when it ends, or `none` if it still spins
-- after the last of them.
unfoldable pub wait_loop : Rtc → List Event → Option (Rtc × List Event)
wait_loop r [] = if r.rtc_interrupt_occurred == 1 then none else some (r, [])
wait_loop r (rtc_tick ∷ es) =
    let rest = wait_loop (rtc_handler r).0 es in
    if r.rtc_interrupt_occurred == 1 then rest else some (r, rtc_tick ∷ es)
wait_loop r (other ∷ es) =
    let rest = wait_loop r es in
    if r.rtc_interrupt_occurred == 1 then rest else some (r, other ∷ es)

unfoldable pub rtc_read : Rtc → List Event → Option (ℤ × Rtc × List Event)
rtc_read r es = elim (wait_loop (record { rtc_interrupt_occurred = 1 }) es) [
  | none ↦ none
  | some (r', rest) ↦ some (pos 0, r', rest)
]

-- The switch of `rtc_write`; `none` is its default.
unfoldable pub rate_of : ℕ → Option ℕ
rate_of frequency =
    if frequency == 1024
    then some 0x06
    else if frequency == 512
    then some 0x07
    else if frequency == 256
    then some 0x08
    else if frequency == 128
    then some 0x09
    else if frequency == 64
    then some 0x0A
    else if frequency == 32
    then some 0x0B
    else if frequency == 16
    then some 0x0C
    else if frequency == 8
    then some 0x0D
    else if frequency == 4
    then some 0x0E
    else if frequency == 2
    then some 0x0F
    else if frequency == 0
    then some 0x00
    else none

-- `rtc_write`: `frequency` is the integer at `buf`, `prev` the byte read from register A.
unfoldable pub rtc_write : ℤ → ℤ → ℕ → ℤ × List (ℕ × ℕ)
unfolding set_rate
rtc_write (negsuc n) nbytes prev = (minus_one, [])
rtc_write (pos frequency) (negsuc n) prev = (minus_one, [])
rtc_write (pos frequency) (pos nbytes) prev =
    if nbytes == 4
    then (if ltb 1024 frequency then (minus_one, []) else elim (rate_of frequency) [
      | none ↦ (minus_one, [])
      | some rate ↦ (pos nbytes, set_rate prev rate)
    ])
    else (minus_one, [])

unfoldable pub rtc_open : ℤ
rtc_open = pos 0

unfoldable pub rtc_close : ℤ
rtc_close = pos 0
