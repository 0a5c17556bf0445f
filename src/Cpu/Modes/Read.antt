-- ===== src/Cpu/Modes/Read.antt =====
-- emu/core/instructions.cpp: the addressing modes that read the operand.
use yanesemu.Prelude.{◌+◌, ◌%◌, ◌^◌}
use yanesemu.Instr.Reg16.{high, set_low, set_high}
use yanesemu.Cpu.State.{Env}
use yanesemu.Cpu.Exec.{Exec, gets, ◌>>=◌, ◌>>◌}
use yanesemu.Cpu.Access.{cycle, readmem, last_cycle}
use yanesemu.Cpu.Modes.Operands.{InstrFuncRead, fetch_low, fetch_high, get_opargs, call_read, cross}

module _ {W : Type 0} ⦃env : Env W⦄ where
  unfoldable pub addrmode_imm_read : InstrFuncRead → Exec W (Unit {0})
  unfolding ◌>>=◌ last_cycle fetch_low call_read
  addrmode_imm_read f = do low ← fetch_low; call_read f low; last_cycle

  unfoldable pub addrmode_zero_read : InstrFuncRead → Exec W (Unit {0})
  unfolding ◌>>=◌ readmem last_cycle fetch_low call_read
  addrmode_zero_read f = do low ← fetch_low; v ← readmem low; call_read f v; last_cycle

  unfoldable pub addrmode_zerox_read : InstrFuncRead → Exec W (Unit {0})
  unfolding ◌>>=◌ cycle readmem last_cycle fetch_low call_read
  addrmode_zerox_read f = do
    low ← fetch_low
    x ← gets (λ c. c.x)
    v ← readmem (low + x)
    call_read f v
    cycle
    last_cycle

  unfoldable pub addrmode_zeroy_read : InstrFuncRead → Exec W (Unit {0})
  unfolding ◌>>=◌ cycle readmem last_cycle fetch_low call_read
  addrmode_zeroy_read f = do
    low ← fetch_low
    y ← gets (λ c. c.y)
    v ← readmem (low + y)
    call_read f v
    cycle
    last_cycle

  unfoldable pub addrmode_abs_read : InstrFuncRead → Exec W (Unit {0})
  unfolding ◌>>=◌ readmem last_cycle fetch_low fetch_high get_opargs call_read
  addrmode_abs_read f = do
    fetch_low
    fetch_high
    full ← get_opargs
    v ← readmem full
    call_read f v
    last_cycle

  unfoldable pub addrmode_absx_read : InstrFuncRead → Exec W (Unit {0})
  unfolding ◌>>=◌ readmem last_cycle fetch_low fetch_high get_opargs call_read cross
  addrmode_absx_read f = do
    fetch_low
    fetch_high
    full ← get_opargs
    x ← gets (λ c. c.x)
    res ← readmem ((full + x) % 2 ^ 16)
    call_read f res
    cross (high res)
    last_cycle

  unfoldable pub addrmode_absy_read : InstrFuncRead → Exec W (Unit {0})
  unfolding ◌>>=◌ readmem last_cycle fetch_low fetch_high get_opargs call_read cross
  addrmode_absy_read f = do
    fetch_low
    fetch_high
    full ← get_opargs
    y ← gets (λ c. c.y)
    res ← readmem ((full + y) % 2 ^ 16)
    call_read f res
    cross (high res)
    last_cycle

  unfoldable pub addrmode_indx_read : InstrFuncRead → Exec W (Unit {0})
  unfolding ◌>>=◌ cycle readmem last_cycle fetch_low call_read
  addrmode_indx_read f = do
    low ← fetch_low
    cycle
    x ← gets (λ c. c.x)
    res_low ← readmem (low + x)
    res_high ← readmem (low + x + 1)
    v ← readmem (set_high (set_low 0 res_low) res_high)
    call_read f v
    last_cycle

  unfoldable pub addrmode_indy_read : InstrFuncRead → Exec W (Unit {0})
  unfolding ◌>>=◌ readmem last_cycle fetch_low call_read cross
  addrmode_indy_read f = do
    low ← fetch_low
    res_low ← readmem low
    res_high ← readmem (low + 1)
    y ← gets (λ c. c.y)
    let res = (set_high (set_low 0 res_low) res_high + y) % 2 ^ 16
    v ← readmem res
    call_read f v
    cross (high res)
    last_cycle
