-- ===== src/Cpu/Alu/Arithmetic.antt =====
-- emu/core/instructions.cpp: addition, subtraction and comparison against the integers.
use yanesemu.Prelude.{ℕ, ◌+◌, ◌-◌, ◌*◌, ◌%◌, ◌^◌, ◌<◌, bit_and, bit_xor, ◌≡◌}
use yanesemu.Prelude.{Bool, true, false, not, ltb, leb, ◌==◌, bit, ◌||◌, arith}
use yanesemu.Prelude.Bits.{bit_and_bit, bit_and_at, bit_xor_at, bit_xor-lt}
use yanesemu.Instr.Status.{ProcStatus}
use yanesemu.Cpu.State.{Regs}
use yanesemu.Cpu.Alu.{instr_adc, instr_sbc, instr_cmp, instr_cpx, instr_cpy}

-- The integer, shifted by 128, that a byte stands for in two's complement.
abbrev pub biased : ℕ → ℕ
biased b = (b + 128) % 256

-- The signed sum of two bytes and a carry leaves the range -128 .. 127.
abbrev pub overflows : ℕ → ℕ → ℕ → Bool
overflows a b c = ltb (biased a + biased b + c) 128 || ltb 383 (biased a + biased b + c)

-- With a byte for an operand, the accumulator and the carry hold the exact sum; the overflow
-- flag tells that the signed sum leaves its range; `zero` and `neg` describe the new accumulator.
pub instr_adc_sum :
    (val : ℕ) (r : Regs)
    → val < 256
    → r.acc < 256
    → let s = instr_adc val r in
      (s.acc + 256 * bit s.flags.carry ≡ r.acc + val + bit r.flags.carry)
      × (s.acc < 256)
      × (s.flags.ov ≡ overflows r.acc val (bit r.flags.carry))
      × (s.flags.zero ≡ (s.acc == 0))
      × (s.flags.neg ≡ leb 128 s.acc)
unfolding instr_adc
instr_adc_sum val r hv ha =
    let sum = r.acc + val + bit r.flags.carry in
    let x = bit_xor r.acc sum in
    let y = bit_xor r.acc val in
    ground (
      arith,
      bit_and_bit 7 sum,
      bit_and_bit 7 (bit_and x (2 ^ 32 - 1 - y)),
      bit_and_at 7 x (2 ^ 32 - 1 - y),
      bit_xor_at 7 r.acc sum,
      bit_xor_at 7 r.acc val,
      bit_xor-lt 8 r.acc val,
    )

-- With a byte for an operand, the accumulator and the carry hold the exact difference less the
-- borrow, which is the cleared carry; `zero` and `neg` describe the new accumulator.
pub instr_sbc_difference :
    (val : ℕ) (r : Regs)
    → val < 256
    → r.acc < 256
    → let s = instr_sbc val r in
      (s.acc + val + bit (not r.flags.carry) ≡ r.acc + 256 * bit (not s.flags.carry))
      × (s.acc < 256)
      × (s.flags.zero ≡ (s.acc == 0))
      × (s.flags.neg ≡ leb 128 s.acc)
unfolding instr_sbc
instr_sbc_difference val r hv ha =
    ground (arith, bit_and_bit 7 (r.acc + (2 ^ 32 - 1 - val) % 256 + bit r.flags.carry))

-- The signed difference of two bytes and a borrow leaves the range -128 .. 127.
abbrev pub borrows_over : ℕ → ℕ → ℕ → Bool
borrows_over a b c = ltb (biased a + 128) (biased b + c) || ltb (biased b + 127 + c) (biased a)

-- Where the signed difference leaves its range, `instr_sbc` clears the overflow flag, and where it
-- sets the flag the difference is in range.
pub instr_sbc_ov_misses :
    (val : ℕ) (r : Regs)
    → val < 256
    → r.acc < 256
    → let over = borrows_over r.acc val (bit (not r.flags.carry)) in
      let s = instr_sbc val r in
      (over ≡ true → s.flags.ov ≡ false) × (s.flags.ov ≡ true → over ≡ false)
unfolding instr_sbc
instr_sbc_ov_misses val r hv ha =
    let sum = r.acc + (2 ^ 32 - 1 - val) % 256 + bit r.flags.carry in
    let x = bit_xor r.acc sum in
    let y = bit_xor r.acc val in
    ground (
      arith,
      bit_and_bit 7 (bit_and x (2 ^ 32 - 1 - y)),
      bit_and_at 7 x (2 ^ 32 - 1 - y),
      bit_xor_at 7 r.acc sum,
      bit_xor_at 7 r.acc val,
      bit_xor-lt 8 r.acc val,
    )

-- What a comparison of the bytes `a` and `b` leaves in the flags.
abbrev pub Compares : ℕ → ℕ → ProcStatus → Type 0
Compares a b p = (p.carry ≡ leb b a) × (p.zero ≡ (a == b)) × (p.neg ≡ leb 128 ((a + 256 - b) % 256))

-- The three comparisons set the carry exactly if the register is at least the operand, `zero`
-- exactly if they are equal, and `neg` by bit 7 of the byte difference; no register changes.
pub instr_cmp_flags :
    (val : ℕ) (r : Regs)
    → val < 256
    → r.acc < 256
    → r.x < 256
    → r.y < 256
    → Compares r.acc val (instr_cmp val r).flags
      × Compares r.x val (instr_cpx val r).flags
      × Compares r.y val (instr_cpy val r).flags
      × (instr_cmp val r ≡ record r { flags = (instr_cmp val r).flags })
      × (instr_cpx val r ≡ record r { flags = (instr_cpx val r).flags })
      × (instr_cpy val r ≡ record r { flags = (instr_cpy val r).flags })
unfolding instr_cmp instr_cpx instr_cpy
instr_cmp_flags val r hv ha hx hy = ground (
  arith,
  bit_and_bit 7 ((r.acc + 2 ^ 32 - val) % 2 ^ 32),
  bit_and_bit 7 ((r.x + 2 ^ 32 - val) % 2 ^ 32),
  bit_and_bit 7 ((r.y + 2 ^ 32 - val) % 2 ^ 32),
)
