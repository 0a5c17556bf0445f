-- ===== src/Cpu/Words/Modes.antt =====
-- emu/core/cpu.hpp: what the types of the CPU's members promise, kept by every addressing mode.
use yanesemu.Prelude.{ℕ, ◌^◌, ◌<◌, arith}
use yanesemu.Cpu.State.{Regs, Env, Machine}
use yanesemu.Cpu.Alu.Words.{IsWords}
use yanesemu.Cpu.Modes
use yanesemu.Cpu.Modes.{InstrFuncRead, InstrFuncMod}

-- The registers and the latched operand fit their types.
pub record IsSized {W : Type 0} (s : Machine W) : Type 0 where
  pub regs : IsWords s.cpu.r
  pub opargs : s.cpu.opargs < 2 ^ 16

-- The bus delivers bytes.
abbrev pub ReadsBytes : {W : Type 0} → Env W → Type 0
ReadsBytes {W} env = (addr : ℕ) (w : W) → (env.read addr w).0 < 256

module _ {W : Type 0} ⦃env : Env W⦄ (b : ReadsBytes env) (f : InstrFuncRead)
    (k : (v : ℕ) (r : Regs) → v < 256 → IsWords r → IsWords (f v r)) (s : Machine W)
    (h : IsSized s) where
  pub addrmode_imm_read-IsSized : IsSized (Modes.addrmode_imm_read f s).1
  unfolding Modes.addrmode_imm_read
  addrmode_imm_read-IsSized = grind (arith, k, b)

  pub addrmode_zero_read-IsSized : IsSized (Modes.addrmode_zero_read f s).1
  unfolding Modes.addrmode_zero_read
  addrmode_zero_read-IsSized = grind (arith, k, b)

  pub addrmode_zerox_read-IsSized : IsSized (Modes.addrmode_zerox_read f s).1
  unfolding Modes.addrmode_zerox_read
  addrmode_zerox_read-IsSized = grind (arith, k, b)

  pub addrmode_zeroy_read-IsSized : IsSized (Modes.addrmode_zeroy_read f s).1
  unfolding Modes.addrmode_zeroy_read
  addrmode_zeroy_read-IsSized = grind (arith, k, b)

  pub addrmode_abs_read-IsSized : IsSized (Modes.addrmode_abs_read f s).1
  unfolding Modes.addrmode_abs_read
  addrmode_abs_read-IsSized = grind (arith, k, b)

  pub addrmode_absx_read-IsSized : IsSized (Modes.addrmode_absx_read f s).1
  unfolding Modes.addrmode_absx_read
  addrmode_absx_read-IsSized = grind (arith, k, b)

  pub addrmode_absy_read-IsSized : IsSized (Modes.addrmode_absy_read f s).1
  unfolding Modes.addrmode_absy_read
  addrmode_absy_read-IsSized = grind (arith, k, b)

  pub addrmode_indx_read-IsSized : IsSized (Modes.addrmode_indx_read f s).1
  unfolding Modes.addrmode_indx_read
  addrmode_indx_read-IsSized = grind (arith, k, b)

  pub addrmode_indy_read-IsSized : IsSized (Modes.addrmode_indy_read f s).1
  unfolding Modes.addrmode_indy_read
  addrmode_indy_read-IsSized = grind (arith, k, b)

module _ {W : Type 0} ⦃env : Env W⦄ (b : ReadsBytes env) (f : InstrFuncMod)
    (k : (v : ℕ) (r : Regs) → v < 256 → IsWords r → IsWords (f v r).1 × ((f v r).0 < 256))
    (s : Machine W) (h : IsSized s) where
  pub addrmode_accum_modify-IsSized : IsSized (Modes.addrmode_accum_modify f s).1
  unfolding Modes.addrmode_accum_modify
  addrmode_accum_modify-IsSized = grind (arith, k, b)

  pub addrmode_zero_modify-IsSized : IsSized (Modes.addrmode_zero_modify f s).1
  unfolding Modes.addrmode_zero_modify
  addrmode_zero_modify-IsSized = grind (arith, k, b)

  pub addrmode_zerox_modify-IsSized : IsSized (Modes.addrmode_zerox_modify f s).1
  unfolding Modes.addrmode_zerox_modify
  addrmode_zerox_modify-IsSized = grind (arith, k, b)

  pub addrmode_abs_modify-IsSized : IsSized (Modes.addrmode_abs_modify f s).1
  unfolding Modes.addrmode_abs_modify
  addrmode_abs_modify-IsSized = grind (arith, k, b)

  pub addrmode_absx_modify-IsSized : IsSized (Modes.addrmode_absx_modify f s).1
  unfolding Modes.addrmode_absx_modify
  addrmode_absx_modify-IsSized = grind (arith, k, b)

module _ {W : Type 0} ⦃env : Env W⦄ (b : ReadsBytes env) (val : ℕ) (s : Machine W)
    (h : IsSized s) where
  pub addrmode_zero_write-IsSized : IsSized (Modes.addrmode_zero_write val s).1
  unfolding Modes.addrmode_zero_write
  addrmode_zero_write-IsSized = grind (arith, b)

  pub addrmode_zerox_write-IsSized : IsSized (Modes.addrmode_zerox_write val s).1
  unfolding Modes.addrmode_zerox_write
  addrmode_zerox_write-IsSized = grind (arith, b)

  pub addrmode_zeroy_write-IsSized : IsSized (Modes.addrmode_zeroy_write val s).1
  unfolding Modes.addrmode_zeroy_write
  addrmode_zeroy_write-IsSized = grind (arith, b)

  pub addrmode_abs_write-IsSized : IsSized (Modes.addrmode_abs_write val s).1
  unfolding Modes.addrmode_abs_write
  addrmode_abs_write-IsSized = grind (arith, b)

  pub addrmode_absx_write-IsSized : IsSized (Modes.addrmode_absx_write val s).1
  unfolding Modes.addrmode_absx_write
  addrmode_absx_write-IsSized = grind (arith, b)

  pub addrmode_absy_write-IsSized : IsSized (Modes.addrmode_absy_write val s).1
  unfolding Modes.addrmode_absy_write
  addrmode_absy_write-IsSized = grind (arith, b)

  pub addrmode_indx_write-IsSized : IsSized (Modes.addrmode_indx_write val s).1
  unfolding Modes.addrmode_indx_write
  addrmode_indx_write-IsSized = grind (arith, b)

  pub addrmode_indy_write-IsSized : IsSized (Modes.addrmode_indy_write val s).1
  unfolding Modes.addrmode_indy_write
  addrmode_indy_write-IsSized = grind (arith, b)
