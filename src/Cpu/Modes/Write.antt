-- ===== src/Cpu/Modes/Write.antt =====
-- emu/core/instructions.cpp: the addressing modes that store a value.
use yanesemu.Prelude.{ℕ, ◌+◌, ◌%◌, ◌^◌}
use yanesemu.Instr.Reg16.{set_low, set_high}
use yanesemu.Cpu.State.{Env}
use yanesemu.Cpu.Exec.{Exec, gets, ◌>>=◌, ◌>>◌}
use yanesemu.Cpu.Access.{cycle, readmem, writemem, last_cycle}
use yanesemu.Cpu.Modes.Operands.{fetch_low, fetch_high, get_opargs}

module _ {W : Type 0} ⦃env : Env W⦄ where
  unfoldable pub addrmode_zero_write : ℕ → Exec W (Unit {0})
  unfolding ◌>>=◌ writemem last_cycle fetch_low
  addrmode_zero_write val = do low ← fetch_low; writemem low val; last_cycle

  unfoldable pub addrmode_zerox_write : ℕ → Exec W (Unit {0})
  unfolding ◌>>=◌ cycle writemem last_cycle fetch_low
  addrmode_zerox_write val = do
    low ← fetch_low
    cycle
    x ← gets (λ c. c.x)
    writemem (low + x) val
    last_cycle

  unfoldable pub addrmode_zeroy_write : ℕ → Exec W (Unit {0})
  unfolding ◌>>=◌ cycle writemem last_cycle fetch_low
  addrmode_zeroy_write val = do
    low ← fetch_low
    cycle
    y ← gets (λ c. c.y)
    writemem (low + y) val
    last_cycle

  unfoldable pub addrmode_abs_write : ℕ → Exec W (Unit {0})
  unfolding ◌>>=◌ writemem last_cycle fetch_low fetch_high get_opargs
  addrmode_abs_write val = do
    fetch_low
    fetch_high
    full ← get_opargs
    writemem full val
    last_cycle

  unfoldable pub addrmode_absx_write : ℕ → Exec W (Unit {0})
  unfolding ◌>>=◌ cycle writemem last_cycle fetch_low fetch_high get_opargs
  addrmode_absx_write val = do
    fetch_low
    fetch_high
    cycle
    full ← get_opargs
    x ← gets (λ c. c.x)
    writemem ((full + x) % 2 ^ 16) val
    last_cycle

  unfoldable pub addrmode_absy_write : ℕ → Exec W (Unit {0})
  unfolding ◌>>=◌ cycle writemem last_cycle fetch_low fetch_high get_opargs
  addrmode_absy_write val = do
    fetch_low
    fetch_high
    cycle
    full ← get_opargs
    y ← gets (λ c. c.y)
    writemem ((full + y) % 2 ^ 16) val
    last_cycle

  unfoldable pub addrmode_indx_write : ℕ → Exec W (Unit {0})
  unfolding ◌>>=◌ cycle readmem writemem last_cycle fetch_low
  addrmode_indx_write val = do
    low ← fetch_low
    cycle
    x ← gets (λ c. c.x)
    res_low ← readmem (low + x)
    res_high ← readmem (low + x + 1)
    writemem (set_high (set_low 0 res_low) res_high) val
    last_cycle

  unfoldable pub addrmode_indy_write : ℕ → Exec W (Unit {0})
  unfolding ◌>>=◌ cycle readmem writemem last_cycle fetch_low
  addrmode_indy_write val = do
    low ← fetch_low
    res_low ← readmem low
    res_high ← readmem (low + 1)
    y ← gets (λ c. c.y)
    cycle
    writemem ((set_high (set_low 0 res_low) res_high + y) % 2 ^ 16) val
    last_cycle
