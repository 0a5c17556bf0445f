-- ===== src/Cpu/Timing/Modes.antt =====
-- emu/core/instructions.cpp: how far each addressing mode function moves the program counter and
-- the cycle counter.
use yanesemu.Prelude.{ℕ, ◌+◌, ◌%◌, ◌^◌, ◌≡◌, arith, ◌⊎◌}
use yanesemu.Cpu.State.{Regs, Env, Machine}
use yanesemu.Cpu.Modes
use yanesemu.Cpu.Modes.{InstrFuncRead, InstrFuncMod}

-- From `s` to `t` the program counter moves on by `bytes` and the cycle counter by `n`.
abbrev pub Moves : {W : Type 0} → ℕ → ℕ → Machine W → Machine W → Type 0
Moves bytes n s t =
    (t.cpu.pc % 2 ^ 16 ≡ (s.cpu.pc + bytes) % 2 ^ 16)
    × (t.cpu.cycles % 2 ^ 64 ≡ (s.cpu.cycles + n) % 2 ^ 64)

-- The same, with one cycle more in some cases.
abbrev pub MovesMore : {W : Type 0} → ℕ → ℕ → Machine W → Machine W → Type 0
MovesMore bytes n s t = Moves bytes n s t ⊎ Moves bytes (n + 1) s t

-- An instruction function leaves the program counter and the cycle counter alone.
abbrev pub KeepsCounters : Regs → Regs → Type 0
KeepsCounters r r' = (r'.pc ≡ r.pc) × (r'.cycles ≡ r.cycles)

module _ {W : Type 0} ⦃env : Env W⦄ (f : InstrFuncRead)
    (k : (v : ℕ) (r : Regs) → KeepsCounters r (f v r)) (s : Machine W) where
  pub addrmode_imm_read-Moves : Moves 1 1 s (Modes.addrmode_imm_read f s).1
  unfolding Modes.addrmode_imm_read
  addrmode_imm_read-Moves = grind (arith, k)

  pub addrmode_zero_read-Moves : Moves 1 2 s (Modes.addrmode_zero_read f s).1
  unfolding Modes.addrmode_zero_read
  addrmode_zero_read-Moves = grind (arith, k)

  pub addrmode_zerox_read-Moves : Moves 1 3 s (Modes.addrmode_zerox_read f s).1
  unfolding Modes.addrmode_zerox_read
  addrmode_zerox_read-Moves = grind (arith, k)

  pub addrmode_zeroy_read-Moves : Moves 1 3 s (Modes.addrmode_zeroy_read f s).1
  unfolding Modes.addrmode_zeroy_read
  addrmode_zeroy_read-Moves = grind (arith, k)

  pub addrmode_abs_read-Moves : Moves 2 3 s (Modes.addrmode_abs_read f s).1
  unfolding Modes.addrmode_abs_read
  addrmode_abs_read-Moves = grind (arith, k)

  pub addrmode_absx_read-MovesMore : MovesMore 2 3 s (Modes.addrmode_absx_read f s).1
  unfolding Modes.addrmode_absx_read
  addrmode_absx_read-MovesMore = grind (arith, k)

  pub addrmode_absy_read-MovesMore : MovesMore 2 3 s (Modes.addrmode_absy_read f s).1
  unfolding Modes.addrmode_absy_read
  addrmode_absy_read-MovesMore = grind (arith, k)

  pub addrmode_indx_read-Moves : Moves 1 5 s (Modes.addrmode_indx_read f s).1
  unfolding Modes.addrmode_indx_read
  addrmode_indx_read-Moves = grind (arith, k)

  pub addrmode_indy_read-MovesMore : MovesMore 1 4 s (Modes.addrmode_indy_read f s).1
  unfolding Modes.addrmode_indy_read
  addrmode_indy_read-MovesMore = grind (arith, k)

module _ {W : Type 0} ⦃env : Env W⦄ (f : InstrFuncMod)
    (k : (v : ℕ) (r : Regs) → KeepsCounters r (f v r).1) (s : Machine W) where
  pub addrmode_accum_modify-Moves : Moves 0 1 s (Modes.addrmode_accum_modify f s).1
  unfolding Modes.addrmode_accum_modify
  addrmode_accum_modify-Moves = grind (arith, k)

  pub addrmode_zero_modify-Moves : Moves 1 4 s (Modes.addrmode_zero_modify f s).1
  unfolding Modes.addrmode_zero_modify
  addrmode_zero_modify-Moves = grind (arith, k)

  pub addrmode_zerox_modify-Moves : Moves 1 5 s (Modes.addrmode_zerox_modify f s).1
  unfolding Modes.addrmode_zerox_modify
  addrmode_zerox_modify-Moves = grind (arith, k)

  pub addrmode_abs_modify-Moves : Moves 2 5 s (Modes.addrmode_abs_modify f s).1
  unfolding Modes.addrmode_abs_modify
  addrmode_abs_modify-Moves = grind (arith, k)

  pub addrmode_absx_modify-Moves : Moves 2 6 s (Modes.addrmode_absx_modify f s).1
  unfolding Modes.addrmode_absx_modify
  addrmode_absx_modify-Moves = grind (arith, k)

module _ {W : Type 0} ⦃env : Env W⦄ (val : ℕ) (s : Machine W) where
  pub addrmode_zero_write-Moves : Moves 1 2 s (Modes.addrmode_zero_write val s).1
  unfolding Modes.addrmode_zero_write
  addrmode_zero_write-Moves = omega arith

  pub addrmode_zerox_write-Moves : Moves 1 3 s (Modes.addrmode_zerox_write val s).1
  unfolding Modes.addrmode_zerox_write
  addrmode_zerox_write-Moves = omega arith

  pub addrmode_zeroy_write-Moves : Moves 1 3 s (Modes.addrmode_zeroy_write val s).1
  unfolding Modes.addrmode_zeroy_write
  addrmode_zeroy_write-Moves = omega arith

  pub addrmode_abs_write-Moves : Moves 2 3 s (Modes.addrmode_abs_write val s).1
  unfolding Modes.addrmode_abs_write
  addrmode_abs_write-Moves = omega arith

  pub addrmode_absx_write-Moves : Moves 2 4 s (Modes.addrmode_absx_write val s).1
  unfolding Modes.addrmode_absx_write
  addrmode_absx_write-Moves = omega arith

  pub addrmode_absy_write-Moves : Moves 2 4 s (Modes.addrmode_absy_write val s).1
  unfolding Modes.addrmode_absy_write
  addrmode_absy_write-Moves = omega arith

  pub addrmode_indx_write-Moves : Moves 1 5 s (Modes.addrmode_indx_write val s).1
  unfolding Modes.addrmode_indx_write
  addrmode_indx_write-Moves = omega arith

  pub addrmode_indy_write-Moves : Moves 1 5 s (Modes.addrmode_indy_write val s).1
  unfolding Modes.addrmode_indy_write
  addrmode_indy_write-Moves = omega arith
