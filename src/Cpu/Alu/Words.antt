-- ===== src/Cpu/Alu/Words.antt =====
-- emu/core/instructions.cpp: the instruction functions keep every register in its width.
use yanesemu.Prelude.{ℕ, ◌^◌, ◌<◌, arith}
use yanesemu.Prelude.Bits.{bit_and-le, bit_or-lt, bit_xor-lt}
use yanesemu.Cpu.State.{Regs}
use yanesemu.Cpu.Alu.{
  instr_lda, instr_ldx, instr_ldy, instr_cmp, instr_cpx, instr_cpy, instr_adc, instr_sbc, instr_ora,
  instr_and, instr_eor, instr_bit, instr_inc, instr_dec, instr_asl, instr_lsr, instr_rol, instr_ror,
}
use native.Mathlib.Nat.{le_refl}

-- The registers fit their types.
pub record IsWords (r : Regs) : Type 0 where
  pub pc : r.pc < 2 ^ 16
  pub acc : r.acc < 2 ^ 8
  pub x : r.x < 2 ^ 8
  pub y : r.y < 2 ^ 8
  pub sp : r.sp < 2 ^ 8

module _ (val : ℕ) (r : Regs) (h : val < 256) (w : IsWords r) where
  pub instr_lda-IsWords : IsWords (instr_lda val r)
  unfolding instr_lda
  instr_lda-IsWords = ground arith

  pub instr_ldx-IsWords : IsWords (instr_ldx val r)
  unfolding instr_ldx
  instr_ldx-IsWords = ground arith

  pub instr_ldy-IsWords : IsWords (instr_ldy val r)
  unfolding instr_ldy
  instr_ldy-IsWords = ground arith

  pub instr_compares-IsWords :
      IsWords (instr_cmp val r) × IsWords (instr_cpx val r) × IsWords (instr_cpy val r)
  unfolding instr_cmp instr_cpx instr_cpy
  instr_compares-IsWords = ground arith

  pub instr_adc-IsWords : IsWords (instr_adc val r)
  unfolding instr_adc
  instr_adc-IsWords = ground arith

  pub instr_sbc-IsWords : IsWords (instr_sbc val r)
  unfolding instr_sbc
  instr_sbc-IsWords = ground arith

  pub instr_ora-IsWords : IsWords (instr_ora val r)
  unfolding instr_ora
  instr_ora-IsWords = ground (arith, bit_or-lt 8 r.acc val)

  pub instr_and-IsWords : IsWords (instr_and val r)
  unfolding instr_and
  instr_and-IsWords = ground (arith, bit_and-le r.acc r.acc val (le_refl _))

  pub instr_eor-IsWords : IsWords (instr_eor val r)
  unfolding instr_eor
  instr_eor-IsWords = ground (arith, bit_xor-lt 8 r.acc val)

  pub instr_bit-IsWords : IsWords (instr_bit val r)
  unfolding instr_bit
  instr_bit-IsWords = ground arith

  pub instr_inc-IsWords : IsWords (instr_inc val r).1 × ((instr_inc val r).0 < 256)
  unfolding instr_inc
  instr_inc-IsWords = omega arith

  pub instr_dec-IsWords : IsWords (instr_dec val r).1 × ((instr_dec val r).0 < 256)
  unfolding instr_dec
  instr_dec-IsWords = omega arith

  pub instr_asl-IsWords : IsWords (instr_asl val r).1 × ((instr_asl val r).0 < 256)
  unfolding instr_asl
  instr_asl-IsWords = omega arith

  pub instr_lsr-IsWords : IsWords (instr_lsr val r).1 × ((instr_lsr val r).0 < 256)
  unfolding instr_lsr
  instr_lsr-IsWords = omega arith

  pub instr_rol-IsWords : IsWords (instr_rol val r).1 × ((instr_rol val r).0 < 256)
  unfolding instr_rol
  instr_rol-IsWords = omega arith

  pub instr_ror-IsWords : IsWords (instr_ror val r).1 × ((instr_ror val r).0 < 256)
  unfolding instr_ror
  instr_ror-IsWords = omega arith
