-- ===== src/Cpu/Alu/Shifts.antt =====
-- emu/core/instructions.cpp: shifts, rotations and steps by one of an operand.
use yanesemu.Prelude.{ℕ, ◌+◌, ◌*◌, ◌/◌, ◌%◌, ◌<◌, bit_or, ◌≡◌, ◌==◌}
use yanesemu.Prelude.{leb, bit, arith}
use yanesemu.Prelude.Bits.{bit_and_bit, bit_or_fields, bit_or_low}
use yanesemu.Cpu.State.{Regs}
use yanesemu.Cpu.Alu.{instr_inc, instr_dec, instr_asl, instr_lsr, instr_rol, instr_ror}

module _ (val : ℕ) (r : Regs) (h : val < 256) where
  -- The four shifts lose no bit: the result and the carry that comes out hold the operand and the
  -- carry that goes in.
  pub shifts_exact :
      let c = bit r.flags.carry in
      let asl = instr_asl val r in
      let lsr = instr_lsr val r in
      let rol = instr_rol val r in
      let ror = instr_ror val r in
      (asl.0 + 256 * bit asl.1.flags.carry ≡ 2 * val)
      × (2 * lsr.0 + bit lsr.1.flags.carry ≡ val)
      × (rol.0 + 256 * bit rol.1.flags.carry ≡ 2 * val + c)
      × (2 * ror.0 + bit ror.1.flags.carry ≡ val + 256 * c)
  unfolding instr_asl instr_lsr instr_rol instr_ror
  shifts_exact = ground (
    arith,
    bit_and_bit 7 val,
    bit_and_bit 0 val,
    bit_or_fields 1 val (bit r.flags.carry),
    bit_or_low 7 (val / 2) (bit r.flags.carry),
  )

  -- The result of each modifying function is a byte, and `zero` and `neg` describe it.
  pub modifies_flags :
      let Describes = λ (t : ℕ × Regs).
        (t.0 < 256) × (t.1.flags.zero ≡ (t.0 == 0)) × (t.1.flags.neg ≡ leb 128 t.0) in
      Describes (instr_inc val r)
      × Describes (instr_dec val r)
      × Describes (instr_asl val r)
      × Describes (instr_lsr val r)
      × Describes (instr_rol val r)
      × Describes (instr_ror val r)
  unfolding instr_inc instr_dec instr_asl instr_lsr instr_rol instr_ror
  modifies_flags = ground (
    arith,
    bit_and_bit 7 ((val + 1) % 256),
    bit_and_bit 7 ((val + 255) % 256),
    bit_and_bit 7 (val * 2 % 256),
    bit_and_bit 7 (val / 2),
    bit_and_bit 7 (bit_or (val * 2) (bit r.flags.carry) % 256),
    bit_and_bit 7 (bit_or (val / 2) (bit r.flags.carry * 128) % 256),
    bit_or_low 7 (val / 2) (bit r.flags.carry),
  )

-- Rotating right undoes rotating left, the carry included, and the other way round.
pub rotate_back :
    (val : ℕ) (r : Regs)
    → val < 256
    → let left = instr_rol val r in
      let right = instr_ror val r in
      ((instr_ror left.0 left.1).0 ≡ val)
      × ((instr_ror left.0 left.1).1.flags.carry ≡ r.flags.carry)
      × ((instr_rol right.0 right.1).0 ≡ val)
      × ((instr_rol right.0 right.1).1.flags.carry ≡ r.flags.carry)
rotate_back val r h =
    let left = instr_rol val r in
    let right = instr_ror val r in
    let there = shifts_exact val r h in
    let bounds = modifies_flags val r h in
    let after_left = shifts_exact left.0 left.1 (omega arith) in
    let after_right = shifts_exact right.0 right.1 (omega arith) in
    let bound_left = modifies_flags left.0 left.1 (omega arith) in
    let bound_right = modifies_flags right.0 right.1 (omega arith) in ground arith
