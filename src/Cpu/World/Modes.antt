-- ===== src/Cpu/World/Modes.antt =====
-- emu/core/instructions.cpp: what every access keeps of the world, every addressing mode keeps.
use yanesemu.Prelude.{ℕ, ◌≡◌, arith, some}
use yanesemu.Cpu.State.{Env, Machine, Status}
use yanesemu.Cpu.Modes
use yanesemu.Cpu.Modes.{InstrFuncRead, InstrFuncMod}

-- A view of the world that neither the bus nor the callback changes.
pub record KeepsView {W V : Type 0} (env : Env W) (view : W → V) : Type 0 where
  pub read : (a : ℕ) (w : W) → view (env.read a w).1 ≡ view w
  pub write : (a v : ℕ) (w : W) → view (env.write a v w) ≡ view w
  pub fetch_callback :
      (f : Status → ℕ → ℕ → W → W)
      → env.fetch_callback ≡ some f
      → (st : Status) (a m : ℕ) (w : W) → view (f st a m w) ≡ view w

module _ {W V : Type 0} ⦃env : Env W⦄ (view : W → V) (k : KeepsView env view) (f : InstrFuncRead)
    (s : Machine W) where
  pub addrmode_imm_read-view : view (Modes.addrmode_imm_read f s).1.world ≡ view s.world
  unfolding Modes.addrmode_imm_read
  addrmode_imm_read-view = grind (arith, k.read, k.write, k.fetch_callback)

  pub addrmode_zero_read-view : view (Modes.addrmode_zero_read f s).1.world ≡ view s.world
  unfolding Modes.addrmode_zero_read
  addrmode_zero_read-view = grind (arith, k.read, k.write, k.fetch_callback)

  pub addrmode_zerox_read-view : view (Modes.addrmode_zerox_read f s).1.world ≡ view s.world
  unfolding Modes.addrmode_zerox_read
  addrmode_zerox_read-view = grind (arith, k.read, k.write, k.fetch_callback)

  pub addrmode_zeroy_read-view : view (Modes.addrmode_zeroy_read f s).1.world ≡ view s.world
  unfolding Modes.addrmode_zeroy_read
  addrmode_zeroy_read-view = grind (arith, k.read, k.write, k.fetch_callback)

  pub addrmode_abs_read-view : view (Modes.addrmode_abs_read f s).1.world ≡ view s.world
  unfolding Modes.addrmode_abs_read
  addrmode_abs_read-view = grind (arith, k.read, k.write, k.fetch_callback)

  pub addrmode_absx_read-view : view (Modes.addrmode_absx_read f s).1.world ≡ view s.world
  unfolding Modes.addrmode_absx_read
  addrmode_absx_read-view = grind (arith, k.read, k.write, k.fetch_callback)

  pub addrmode_absy_read-view : view (Modes.addrmode_absy_read f s).1.world ≡ view s.world
  unfolding Modes.addrmode_absy_read
  addrmode_absy_read-view = grind (arith, k.read, k.write, k.fetch_callback)

  pub addrmode_indx_read-view : view (Modes.addrmode_indx_read f s).1.world ≡ view s.world
  unfolding Modes.addrmode_indx_read
  addrmode_indx_read-view = grind (arith, k.read, k.write, k.fetch_callback)

  pub addrmode_indy_read-view : view (Modes.addrmode_indy_read f s).1.world ≡ view s.world
  unfolding Modes.addrmode_indy_read
  addrmode_indy_read-view = grind (arith, k.read, k.write, k.fetch_callback)

module _ {W V : Type 0} ⦃env : Env W⦄ (view : W → V) (k : KeepsView env view) (f : InstrFuncMod)
    (s : Machine W) where
  pub addrmode_accum_modify-view : view (Modes.addrmode_accum_modify f s).1.world ≡ view s.world
  unfolding Modes.addrmode_accum_modify
  addrmode_accum_modify-view = grind (arith, k.read, k.write, k.fetch_callback)

  pub addrmode_zero_modify-view : view (Modes.addrmode_zero_modify f s).1.world ≡ view s.world
  unfolding Modes.addrmode_zero_modify
  addrmode_zero_modify-view = grind (arith, k.read, k.write, k.fetch_callback)

  pub addrmode_zerox_modify-view : view (Modes.addrmode_zerox_modify f s).1.world ≡ view s.world
  unfolding Modes.addrmode_zerox_modify
  addrmode_zerox_modify-view = grind (arith, k.read, k.write, k.fetch_callback)

  pub addrmode_abs_modify-view : view (Modes.addrmode_abs_modify f s).1.world ≡ view s.world
  unfolding Modes.addrmode_abs_modify
  addrmode_abs_modify-view = grind (arith, k.read, k.write, k.fetch_callback)

  pub addrmode_absx_modify-view : view (Modes.addrmode_absx_modify f s).1.world ≡ view s.world
  unfolding Modes.addrmode_absx_modify
  addrmode_absx_modify-view = grind (arith, k.read, k.write, k.fetch_callback)

module _ {W V : Type 0} ⦃env : Env W⦄ (view : W → V) (k : KeepsView env view) (val : ℕ)
    (s : Machine W) where
  pub addrmode_zero_write-view : view (Modes.addrmode_zero_write val s).1.world ≡ view s.world
  unfolding Modes.addrmode_zero_write
  addrmode_zero_write-view = grind (arith, k.read, k.write, k.fetch_callback)

  pub addrmode_zerox_write-view : view (Modes.addrmode_zerox_write val s).1.world ≡ view s.world
  unfolding Modes.addrmode_zerox_write
  addrmode_zerox_write-view = grind (arith, k.read, k.write, k.fetch_callback)

  pub addrmode_zeroy_write-view : view (Modes.addrmode_zeroy_write val s).1.world ≡ view s.world
  unfolding Modes.addrmode_zeroy_write
  addrmode_zeroy_write-view = grind (arith, k.read, k.write, k.fetch_callback)

  pub addrmode_abs_write-view : view (Modes.addrmode_abs_write val s).1.world ≡ view s.world
  unfolding Modes.addrmode_abs_write
  addrmode_abs_write-view = grind (arith, k.read, k.write, k.fetch_callback)

  pub addrmode_absx_write-view : view (Modes.addrmode_absx_write val s).1.world ≡ view s.world
  unfolding Modes.addrmode_absx_write
  addrmode_absx_write-view = grind (arith, k.read, k.write, k.fetch_callback)

  pub addrmode_absy_write-view : view (Modes.addrmode_absy_write val s).1.world ≡ view s.world
  unfolding Modes.addrmode_absy_write
  addrmode_absy_write-view = grind (arith, k.read, k.write, k.fetch_callback)

  pub addrmode_indx_write-view : view (Modes.addrmode_indx_write val s).1.world ≡ view s.world
  unfolding Modes.addrmode_indx_write
  addrmode_indx_write-view = grind (arith, k.read, k.write, k.fetch_callback)

  pub addrmode_indy_write-view : view (Modes.addrmode_indy_write val s).1.world ≡ view s.world
  unfolding Modes.addrmode_indy_write
  addrmode_indy_write-view = grind (arith, k.read, k.write, k.fetch_callback)
