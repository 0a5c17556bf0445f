-- ===== src/Cpu/World/Control.antt =====
-- emu/core/instructions.cpp and cpu.cpp: the same for the instructions that are called directly.
use yanesemu.Prelude.{ℕ, ◌≡◌, arith, Bool, true, false}
use yanesemu.Cpu.State.{Env, Machine}
use yanesemu.Cpu.Control
use yanesemu.Cpu.Control.{Flag, Register}
use yanesemu.Cpu.World.Modes.{KeepsView}

module _ {W V : Type 0} ⦃env : Env W⦄ (view : W → V) (k : KeepsView env view) (s : Machine W) where
  pub instr_inx-view : view (Control.instr_inx s).1.world ≡ view s.world
  unfolding Control.instr_inx
  instr_inx-view = grind (arith, k.read, k.write, k.fetch_callback)

  pub instr_iny-view : view (Control.instr_iny s).1.world ≡ view s.world
  unfolding Control.instr_iny
  instr_iny-view = grind (arith, k.read, k.write, k.fetch_callback)

  pub instr_dex-view : view (Control.instr_dex s).1.world ≡ view s.world
  unfolding Control.instr_dex
  instr_dex-view = grind (arith, k.read, k.write, k.fetch_callback)

  pub instr_dey-view : view (Control.instr_dey s).1.world ≡ view s.world
  unfolding Control.instr_dey
  instr_dey-view = grind (arith, k.read, k.write, k.fetch_callback)

  pub instr_nop-view : view (Control.instr_nop s).1.world ≡ view s.world
  unfolding Control.instr_nop
  instr_nop-view = grind (arith, k.read, k.write, k.fetch_callback)

  pub instr_php-view : view (Control.instr_php s).1.world ≡ view s.world
  unfolding Control.instr_php
  instr_php-view = grind (arith, k.read, k.write, k.fetch_callback)

  pub instr_pha-view : view (Control.instr_pha s).1.world ≡ view s.world
  unfolding Control.instr_pha
  instr_pha-view = grind (arith, k.read, k.write, k.fetch_callback)

  pub instr_plp-view : view (Control.instr_plp s).1.world ≡ view s.world
  unfolding Control.instr_plp
  instr_plp-view = grind (arith, k.read, k.write, k.fetch_callback)

  pub instr_pla-view : view (Control.instr_pla s).1.world ≡ view s.world
  unfolding Control.instr_pla
  instr_pla-view = grind (arith, k.read, k.write, k.fetch_callback)

  pub instr_jsr-view : view (Control.instr_jsr s).1.world ≡ view s.world
  unfolding Control.instr_jsr
  instr_jsr-view = grind (arith, k.read, k.write, k.fetch_callback)

  pub instr_jmp-view : view (Control.instr_jmp s).1.world ≡ view s.world
  unfolding Control.instr_jmp
  instr_jmp-view = grind (arith, k.read, k.write, k.fetch_callback)

  pub instr_jmp_ind-view : view (Control.instr_jmp_ind s).1.world ≡ view s.world
  unfolding Control.instr_jmp_ind
  instr_jmp_ind-view = grind (arith, k.read, k.write, k.fetch_callback)

  pub instr_rts-view : view (Control.instr_rts s).1.world ≡ view s.world
  unfolding Control.instr_rts
  instr_rts-view = grind (arith, k.read, k.write, k.fetch_callback)

  pub instr_rti-view : view (Control.instr_rti s).1.world ≡ view s.world
  unfolding Control.instr_rti
  instr_rti-view = grind (arith, k.read, k.write, k.fetch_callback)

  pub instr_brk-view : view (Control.instr_brk s).1.world ≡ view s.world
  unfolding Control.instr_brk
  instr_brk-view = grind (arith, k.read, k.write, k.fetch_callback)

  pub interrupt-view : view (Control.interrupt s).1.world ≡ view s.world
  unfolding Control.interrupt
  interrupt-view = grind (arith, k.read, k.write, k.fetch_callback)

  pub instr_flag-view :
      (f : Flag) (v : Bool) → view (Control.instr_flag f v s).1.world ≡ view s.world
  unfolding Control.instr_flag
  instr_flag-view f v = grind (arith, k.read, k.write, k.fetch_callback)

  pub instr_transfer-view :
      (v : ℕ) (to : Register) → view (Control.instr_transfer v to s).1.world ≡ view s.world
  unfolding Control.instr_transfer
  instr_transfer-view v Register.acc = grind (arith, k.read, k.write, k.fetch_callback)
  instr_transfer-view v to = grind (arith, k.read, k.write, k.fetch_callback)

  pub instr_branch-view : (take : Bool) → view (Control.instr_branch take s).1.world ≡ view s.world
  unfolding Control.instr_branch
  instr_branch-view true = grind (arith, k.read, k.write, k.fetch_callback)
  instr_branch-view false = grind (arith, k.read, k.write, k.fetch_callback)
