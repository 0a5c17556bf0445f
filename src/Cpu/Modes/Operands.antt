-- ===== src/Cpu/Modes/Operands.antt =====
-- emu/core/instructions.cpp: the operand fetches of the addressing modes and the calls of the
-- instruction functions.
use yanesemu.Prelude.{ℕ, ◌==◌, if◌then◌else◌}
use yanesemu.Instr.Reg16.{high, set_low, set_high}
use yanesemu.Cpu.State.{Cpu, Regs, Env}
use yanesemu.Cpu.Exec.{Exec, pure, gets, modify, ◌>>=◌, ◌>>◌}
use yanesemu.Cpu.Access.{cycle, fetchop}

abbrev pub InstrFuncRead : Type 0
InstrFuncRead = ℕ → Regs → Regs

abbrev pub InstrFuncMod : Type 0
InstrFuncMod = ℕ → Regs → ℕ × Regs

abbrev pub store_low : ℕ → Cpu → Cpu
store_low v c = record c { opargs = set_low c.opargs v }

abbrev pub store_high : ℕ → Cpu → Cpu
store_high v c = record c { opargs = set_high c.opargs v }

module _ {W : Type 0} ⦃env : Env W⦄ where
  -- `opargs.low = fetchop()` and `opargs.high = fetchop()`, with the byte as the value.
  unfoldable pub fetch_low : Exec W ℕ
  unfolding ◌>>=◌ fetchop
  fetch_low = do v ← fetchop; modify (store_low v); pure v

  unfoldable pub fetch_high : Exec W ℕ
  unfolding ◌>>=◌ fetchop
  fetch_high = do v ← fetchop; modify (store_high v); pure v

  unfoldable pub get_opargs : Exec W ℕ
  unfolding ◌>>=◌
  get_opargs = gets (λ c. c.opargs)

  -- `(this->*f)(v)`
  unfoldable pub call_read : InstrFuncRead → ℕ → Exec W (Unit {0})
  unfolding ◌>>=◌
  call_read f v = modify (λ c. record c { r = f v c.r })

  unfoldable pub call_modify : InstrFuncMod → ℕ → Exec W ℕ
  call_modify f v s = let t = f v s.cpu.r in (t.0, record s { cpu = record s.cpu { r = t.1 } })

  -- The extra cycle of an indexed read, where the two bytes differ.
  unfoldable pub cross : ℕ → Exec W (Unit {0})
  unfolding ◌>>=◌ cycle get_opargs
  cross res_high = do ops ← get_opargs; if high ops == res_high then pure tt else cycle
