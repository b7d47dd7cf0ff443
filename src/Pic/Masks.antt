-- ===== src/Pic/Masks.antt =====
-- Which interrupt lines the masks of student-distrib/i8259.c close, line by line.
use project_my_os.Base.{
  ℕ, ◌+◌, ◌-◌, ◌/◌, ◌%◌, ◌^◌, ◌<◌, ◌≡◌, refl, true, [], ◌∷◌, ltb, ◌==◌, ◌&&◌, if◌then◌else◌,
  bit_and, bit_or, all_below, all_below_sound, ==→eq, arith,
}
use project_my_os.Pic.{Pic, enable_mask, disable_mask, enable_irq, disable_irq, send_eoi}

-- Bit `j` of a byte.
pub bit : ℕ → ℕ → ℕ
bit m j = m / 2 ^ j % 2

-- 1 if line `j` is closed.
abbrev pub masked : Pic → ℕ → ℕ
masked p j = if ltb j 8 then bit p.master_mask j else bit p.slave_mask (j - 8)

pub record IsPic (p : Pic) : Type 0 where
  pub master : p.master_mask < 256
  pub slave : p.slave_mask < 256

enable_table :
    all_below 8 (λ n. all_below 256 (λ m.
      all_below 8 (λ j. bit (bit_and (enable_mask n) m) j == (if j == n then 0 else bit m j))))
    ≡ true
unfolding all_below enable_mask bit
enable_table = refl

disable_table :
    all_below 8 (λ n. all_below 256 (λ m.
      all_below 8 (λ j. bit (bit_or (disable_mask n) m) j == (if j == n then 1 else bit m j))))
    ≡ true
unfolding all_below disable_mask bit
disable_table = refl

byte_table :
    all_below 8 (λ n.
      all_below 256
        (λ m. ltb (bit_and (enable_mask n) m) 256 && ltb (bit_or (disable_mask n) m) 256))
    ≡ true
unfolding all_below enable_mask disable_mask
byte_table = refl

enable_bit :
    (n m j : ℕ)
    → n < 8
    → m < 256
    → j < 8
    → bit (bit_and (enable_mask n) m) j ≡ (if j == n then 0 else bit m j)
enable_bit n m j hn hm hj =
    ==→eq _ _ (
      all_below_sound 8 _ j (all_below_sound 256 _ m (all_below_sound 8 _ n enable_table hn) hm) hj)

disable_bit :
    (n m j : ℕ)
    → n < 8
    → m < 256
    → j < 8
    → bit (bit_or (disable_mask n) m) j ≡ (if j == n then 1 else bit m j)
disable_bit n m j hn hm hj =
    ==→eq _ _ (
      all_below_sound 8 _ j (all_below_sound 256 _ m (all_below_sound 8 _ n disable_table hn) hm)
        hj)

-- `enable_irq` opens the line it is given and no other, on the right controller.
pub enable_irq_lem :
    (p : Pic) (n j : ℕ)
    → IsPic p
    → n < 16
    → j < 16
    → masked (enable_irq p n).0 j ≡ (if j == n then 0 else masked p j)
unfolding enable_irq
enable_irq_lem p n j v hn hj =
    ground (arith, enable_bit n p.master_mask j, enable_bit (n - 8) p.slave_mask (j - 8))

-- `disable_irq` closes the line it is given and no other.
pub disable_irq_lem :
    (p : Pic) (n j : ℕ)
    → IsPic p
    → n < 16
    → j < 16
    → masked (disable_irq p n).0 j ≡ (if j == n then 1 else masked p j)
unfolding disable_irq
disable_irq_lem p n j v hn hj =
    ground (arith, disable_bit n p.master_mask j, disable_bit (n - 8) p.slave_mask (j - 8))

byte_enable : (n m : ℕ) → n < 8 → m < 256 → bit_and (enable_mask n) m < 256
byte_enable n m hn hm =
    ground (arith, all_below_sound 256 _ m (all_below_sound 8 _ n byte_table hn) hm)

byte_disable : (n m : ℕ) → n < 8 → m < 256 → bit_or (disable_mask n) m < 256
byte_disable n m hn hm =
    ground (arith, all_below_sound 256 _ m (all_below_sound 8 _ n byte_table hn) hm)

-- What reaches the ports is the mask that the program remembers, at the controller that the line
-- belongs to; a line number out of range sends nothing. The masks stay bytes.
pub irq_ports :
    (p : Pic) (n : ℕ)
    → IsPic p
    → let e = enable_irq p n in
      let d = disable_irq p n in
      IsPic e.0
      × IsPic d.0
      × (e.1 ≡ (
          if ltb n 8
          then (0x21, e.0.master_mask) ∷ []
          else if ltb n 16
          then (0xA1, e.0.slave_mask) ∷ []
          else []))
      × (d.1 ≡ (
          if ltb n 8
          then (0x21, d.0.master_mask) ∷ []
          else if ltb n 16
          then (0xA1, d.0.slave_mask) ∷ []
          else []))
unfolding enable_irq disable_irq
irq_ports p n v = (
  ground (arith, byte_enable n p.master_mask, byte_enable (n - 8) p.slave_mask),
  ground (arith, byte_disable n p.master_mask, byte_disable (n - 8) p.slave_mask),
  ground arith,
  ground arith,
)

eoi_table : all_below 8 (λ n. bit_or 0x60 n == 0x60 + n) ≡ true
unfolding all_below
eoi_table = refl

-- The end of an interrupt is acknowledged by its number at its controller, for a line of the
-- slave by the slave's line at the master as well, and for no other number at all.
pub send_eoi_lem :
    (n : ℕ)
    → send_eoi n ≡ (
        if ltb n 8
        then (0x20, 0x60 + n) ∷ []
        else if ltb n 16
        then (0xA0, 0x60 + (n - 8)) ∷ (0x20, 0x62) ∷ []
        else [])
unfolding send_eoi
send_eoi_lem n =
    ground (arith, all_below_sound 8 _ n eoi_table, all_below_sound 8 _ (n - 8) eoi_table)
