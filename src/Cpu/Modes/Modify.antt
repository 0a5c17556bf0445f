-- ===== src/Cpu/Modes/Modify.antt =====
-- emu/core/instructions.cpp: the addressing modes that modify the operand.
use yanesemu.Prelude.{◌+◌, ◌%◌, ◌^◌}
use yanesemu.Cpu.State.{Env}
use yanesemu.Cpu.Exec.{Exec, gets, modify, ◌>>=◌, ◌>>◌}
use yanesemu.Cpu.Access.{cycle, readmem, writemem, last_cycle}
use yanesemu.Cpu.Modes.Operands.{InstrFuncMod, fetch_low, fetch_high, get_opargs, call_modify}

module _ {W : Type 0} ⦃env : Env W⦄ where
  unfoldable pub addrmode_accum_modify : InstrFuncMod → Exec W (Unit {0})
  unfolding ◌>>=◌ cycle last_cycle call_modify
  addrmode_accum_modify f = do
    cycle
    acc ← gets (λ c. c.acc)
    v ← call_modify f acc
    modify (λ c. record c { r = record c.r { acc = v } })
    last_cycle

  unfoldable pub addrmode_zero_modify : InstrFuncMod → Exec W (Unit {0})
  unfolding ◌>>=◌ cycle readmem writemem last_cycle fetch_low call_modify
  addrmode_zero_modify f = do
    low ← fetch_low
    v ← readmem low
    res ← call_modify f v
    cycle
    writemem low res
    last_cycle

  unfoldable pub addrmode_zerox_modify : InstrFuncMod → Exec W (Unit {0})
  unfolding ◌>>=◌ cycle readmem writemem last_cycle fetch_low call_modify
  addrmode_zerox_modify f = do
    low ← fetch_low
    cycle
    x ← gets (λ c. c.x)
    v ← readmem (low + x)
    res ← call_modify f v
    cycle
    x' ← gets (λ c. c.x)
    writemem (low + x') res
    last_cycle

  unfoldable pub addrmode_abs_modify : InstrFuncMod → Exec W (Unit {0})
  unfolding ◌>>=◌ cycle readmem writemem last_cycle fetch_low fetch_high get_opargs call_modify
  addrmode_abs_modify f = do
    fetch_low
    fetch_high
    full ← get_opargs
    v ← readmem full
    res ← call_modify f v
    cycle
    writemem full res
    last_cycle

  unfoldable pub addrmode_absx_modify : InstrFuncMod → Exec W (Unit {0})
  unfolding ◌>>=◌ cycle readmem writemem last_cycle fetch_low fetch_high get_opargs call_modify
  addrmode_absx_modify f = do
    fetch_low
    fetch_high
    full ← get_opargs
    x ← gets (λ c. c.x)
    v ← readmem ((full + x) % 2 ^ 16)
    res ← call_modify f v
    cycle
    cycle
    x' ← gets (λ c. c.x)
    writemem ((full + x') % 2 ^ 16) res
    last_cycle
