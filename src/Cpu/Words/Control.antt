-- ===== src/Cpu/Words/Control.antt =====
-- emu/core/instructions.cpp and cpu.cpp: the same for the instructions that are called directly.
use yanesemu.Prelude.{ℕ, ◌<◌, arith, Bool, true, false}
use yanesemu.Cpu.State.{Env, Machine}
use yanesemu.Cpu.Control
use yanesemu.Cpu.Control.{Flag, Register}
use yanesemu.Cpu.Words.Modes.{IsSized, ReadsBytes}

module _ {W : Type 0} ⦃env : Env W⦄ (b : ReadsBytes env) (s : Machine W) (h : IsSized s) where
  pub instr_inx-IsSized : IsSized (Control.instr_inx s).1
  unfolding Control.instr_inx
  instr_inx-IsSized = grind (arith, b)

  pub instr_iny-IsSized : IsSized (Control.instr_iny s).1
  unfolding Control.instr_iny
  instr_iny-IsSized = grind (arith, b)

  pub instr_dex-IsSized : IsSized (Control.instr_dex s).1
  unfolding Control.instr_dex
  instr_dex-IsSized = grind (arith, b)

  pub instr_dey-IsSized : IsSized (Control.instr_dey s).1
  unfolding Control.instr_dey
  instr_dey-IsSized = grind (arith, b)

  pub instr_nop-IsSized : IsSized (Control.instr_nop s).1
  unfolding Control.instr_nop
  instr_nop-IsSized = grind (arith, b)

  pub instr_php-IsSized : IsSized (Control.instr_php s).1
  unfolding Control.instr_php
  instr_php-IsSized = grind (arith, b)

  pub instr_pha-IsSized : IsSized (Control.instr_pha s).1
  unfolding Control.instr_pha
  instr_pha-IsSized = grind (arith, b)

  pub instr_plp-IsSized : IsSized (Control.instr_plp s).1
  unfolding Control.instr_plp
  instr_plp-IsSized = grind (arith, b)

  pub instr_pla-IsSized : IsSized (Control.instr_pla s).1
  unfolding Control.instr_pla
  instr_pla-IsSized = grind (arith, b)

  pub instr_jsr-IsSized : IsSized (Control.instr_jsr s).1
  unfolding Control.instr_jsr
  instr_jsr-IsSized = grind (arith, b)

  pub instr_jmp-IsSized : IsSized (Control.instr_jmp s).1
  unfolding Control.instr_jmp
  instr_jmp-IsSized = grind (arith, b)

  pub instr_jmp_ind-IsSized : IsSized (Control.instr_jmp_ind s).1
  unfolding Control.instr_jmp_ind
  instr_jmp_ind-IsSized = grind (arith, b)

  pub instr_rts-IsSized : IsSized (Control.instr_rts s).1
  unfolding Control.instr_rts
  instr_rts-IsSized = grind (arith, b)

  pub instr_rti-IsSized : IsSized (Control.instr_rti s).1
  unfolding Control.instr_rti
  instr_rti-IsSized = grind (arith, b)

  pub instr_brk-IsSized : IsSized (Control.instr_brk s).1
  unfolding Control.instr_brk
  instr_brk-IsSized = grind (arith, b)

  pub interrupt-IsSized : IsSized (Control.interrupt s).1
  unfolding Control.interrupt
  interrupt-IsSized = grind (arith, b)

  pub instr_flag-IsSized : (f : Flag) (v : Bool) → IsSized (Control.instr_flag f v s).1
  unfolding Control.instr_flag
  instr_flag-IsSized f v = grind (arith, b)

  pub instr_transfer-IsSized :
      (v : ℕ) (to : Register) → v < 256 → IsSized (Control.instr_transfer v to s).1
  unfolding Control.instr_transfer
  instr_transfer-IsSized v Register.acc hv = ground arith
  instr_transfer-IsSized v _ hv = ground arith

  pub instr_branch-IsSized : (take : Bool) → IsSized (Control.instr_branch take s).1
  unfolding Control.instr_branch
  instr_branch-IsSized true = grind (arith, b)
  instr_branch-IsSized false = grind (arith, b)
