-- ===== src/Pic.antt =====
-- The interrupt controller of student-distrib/i8259.c: the two masks, and the bytes sent to the
-- controllers' ports, in order, as (port, byte).
pub mod Masks
use project_my_os.Base.{
  ℕ, zero, suc, ◌+◌, ◌-◌, ◌^◌, Bool, true, false, List, [], ◌∷◌, ltb, ◌==◌, if◌then◌else◌, bit_and,
  bit_or,
}

abbrev pub master_8259_port : ℕ
master_8259_port = 0x20

abbrev pub slave_8259_port : ℕ
slave_8259_port = 0xA0

abbrev pub eoi : ℕ
eoi = 0x60

abbrev pub slave_irq : ℕ
slave_irq = 2

pub record Pic : Type 0 where
  pub master_mask : ℕ
  pub slave_mask : ℕ

-- The four command words to each controller.
unfoldable pub i8259_init : List (ℕ × ℕ)
i8259_init =
    (0x20, 0x11)
    ∷ (0x21, 0x20)
    ∷ (0x21, 0x04)
    ∷ (0x21, 0x01)
    ∷ (0xA0, 0x11)
    ∷ (0xA1, 0x28)
    ∷ (0xA1, 0x02)
    ∷ (0xA1, 0x01)
    ∷ []

-- The constant of case `n` and of case `n + 8` of `enable_irq`: all ones but bit `n`.
unfoldable pub enable_mask : ℕ → ℕ
enable_mask n =
    if n == 0
    then 0xfe
    else if n == 1
    then 0xfd
    else if n == 2
    then 0xfb
    else if n == 3
    then 0xf7
    else if n == 4
    then 0xef
    else if n == 5
    then 0xdf
    else if n == 6
    then 0xbf
    else 0x7f

-- The constant of case `n` and of case `n + 8` of `disable_irq`: bit `n` alone.
unfoldable pub disable_mask : ℕ → ℕ
disable_mask n =
    if n == 0
    then 0x01
    else if n == 1
    then 0x02
    else if n == 2
    then 0x04
    else if n == 3
    then 0x08
    else if n == 4
    then 0x10
    else if n == 5
    then 0x20
    else if n == 6
    then 0x40
    else 0x80

-- A store to a mask and the byte sent to its controller.
unfoldable pub set_master : Pic → ℕ → Pic × List (ℕ × ℕ)
set_master p m = (record p { master_mask = m }, (master_8259_port + 1, m) ∷ [])

unfoldable pub set_slave : Pic → ℕ → Pic × List (ℕ × ℕ)
set_slave p m = (record p { slave_mask = m }, (slave_8259_port + 1, m) ∷ [])

unfoldable pub enable_irq : Pic → ℕ → Pic × List (ℕ × ℕ)
unfolding set_master set_slave
enable_irq p irq_num =
    if ltb 15 irq_num
    then (p, [])
    else if ltb irq_num 8
    then set_master p (bit_and (enable_mask irq_num) p.master_mask)
    else set_slave p (bit_and (enable_mask (irq_num - 8)) p.slave_mask)

unfoldable pub disable_irq : Pic → ℕ → Pic × List (ℕ × ℕ)
unfolding set_master set_slave
disable_irq p irq_num =
    if ltb 15 irq_num
    then (p, [])
    else if ltb irq_num 8
    then set_master p (bit_or (disable_mask irq_num) p.master_mask)
    else set_slave p (bit_or (disable_mask (irq_num - 8)) p.slave_mask)

-- The bytes that `send_eoi` sends.
unfoldable pub send_eoi : ℕ → List (ℕ × ℕ)
send_eoi irq_num =
    if ltb 15 irq_num
    then []
    else if ltb irq_num 8
    then (master_8259_port, bit_or eoi irq_num) ∷ []
    else (slave_8259_port, bit_or eoi (irq_num - 8)) ∷ (master_8259_port, bit_or eoi slave_irq) ∷ []
