-- ===== src/Cpu/Timing/Control.antt =====
-- emu/core/instructions.cpp and cpu.cpp: the same for the instructions that are called directly, and
-- for the interrupt sequence. Those that load the program counter are timed only.
use yanesemu.Prelude.{ℕ, ◌+◌, ◌%◌, ◌^◌, ◌≡◌, arith, ◌⊎◌, Bool, true, false}
use yanesemu.Cpu.State.{Env, Machine}
use yanesemu.Cpu.Control
use yanesemu.Cpu.Control.{Flag, Register}
use yanesemu.Cpu.Timing.Modes.{Moves}

-- From `s` to `t` the cycle counter moves on by `n`.
abbrev pub Spends : {W : Type 0} → ℕ → Machine W → Machine W → Type 0
Spends n s t = t.cpu.cycles % 2 ^ 64 ≡ (s.cpu.cycles + n) % 2 ^ 64

module _ {W : Type 0} ⦃env : Env W⦄ (s : Machine W) where
  pub instr_inx-Moves : Moves 0 1 s (Control.instr_inx s).1
  unfolding Control.instr_inx
  instr_inx-Moves = omega arith

  pub instr_iny-Moves : Moves 0 1 s (Control.instr_iny s).1
  unfolding Control.instr_iny
  instr_iny-Moves = omega arith

  pub instr_dex-Moves : Moves 0 1 s (Control.instr_dex s).1
  unfolding Control.instr_dex
  instr_dex-Moves = omega arith

  pub instr_dey-Moves : Moves 0 1 s (Control.instr_dey s).1
  unfolding Control.instr_dey
  instr_dey-Moves = omega arith

  pub instr_nop-Moves : Moves 0 1 s (Control.instr_nop s).1
  unfolding Control.instr_nop
  instr_nop-Moves = omega arith

  pub instr_php-Moves : Moves 0 2 s (Control.instr_php s).1
  unfolding Control.instr_php
  instr_php-Moves = omega arith

  pub instr_pha-Moves : Moves 0 2 s (Control.instr_pha s).1
  unfolding Control.instr_pha
  instr_pha-Moves = omega arith

  pub instr_plp-Moves : Moves 0 3 s (Control.instr_plp s).1
  unfolding Control.instr_plp
  instr_plp-Moves = omega arith

  pub instr_pla-Moves : Moves 0 3 s (Control.instr_pla s).1
  unfolding Control.instr_pla
  instr_pla-Moves = omega arith

  pub instr_jsr-Spends : Spends 5 s (Control.instr_jsr s).1
  unfolding Control.instr_jsr
  instr_jsr-Spends = omega arith

  pub instr_jmp-Spends : Spends 2 s (Control.instr_jmp s).1
  unfolding Control.instr_jmp
  instr_jmp-Spends = omega arith

  pub instr_jmp_ind-Spends : Spends 4 s (Control.instr_jmp_ind s).1
  unfolding Control.instr_jmp_ind
  instr_jmp_ind-Spends = omega arith

  pub instr_rts-Spends : Spends 5 s (Control.instr_rts s).1
  unfolding Control.instr_rts
  instr_rts-Spends = omega arith

  pub instr_rti-Spends : Spends 5 s (Control.instr_rti s).1
  unfolding Control.instr_rti
  instr_rti-Spends = omega arith

  pub instr_brk-Spends : Spends 6 s (Control.instr_brk s).1
  unfolding Control.instr_brk
  instr_brk-Spends = ground arith

  pub interrupt-Spends : Spends 6 s (Control.interrupt s).1
  unfolding Control.interrupt
  interrupt-Spends = ground arith

  pub instr_flag-Moves : (f : Flag) (v : Bool) → Moves 0 1 s (Control.instr_flag f v s).1
  unfolding Control.instr_flag
  instr_flag-Moves f v = ground arith

  pub instr_transfer-Moves : (v : ℕ) (to : Register) → Moves 0 1 s (Control.instr_transfer v to s).1
  unfolding Control.instr_transfer
  instr_transfer-Moves v to = ground arith

  -- A branch that is not taken moves over its operand; one that is taken spends one or two cycles
  -- more.
  pub instr_branch_not_taken : Moves 1 1 s (Control.instr_branch false s).1
  unfolding Control.instr_branch
  instr_branch_not_taken = ground arith

  pub instr_branch_taken :
      Spends 2 s (Control.instr_branch true s).1 ⊎ Spends 3 s (Control.instr_branch true s).1
  unfolding Control.instr_branch
  instr_branch_taken = grind arith
