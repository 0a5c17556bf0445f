-- ===== src/Cpu/Execute.antt =====
-- emu/core/cpu.cpp: `CPU::execute`, `run`, `power`, `reset`, the interrupt signals and `nextaddr`.
use yanesemu.Prelude.{ℕ, zero, suc, ◌+◌, ◌*◌, ◌%◌, ◌^◌, bit_and, bit_or, Bool, true, false, ◌==◌}
use yanesemu.Prelude.{if◌then◌else◌, Option, none, some, lookup}
use yanesemu.Instr.Reg16.{low}
use yanesemu.Instr.Status.{cleared}
use yanesemu.Instr.Decode.{num_bytes, took_branch, branch_pointer}
use yanesemu.Cpu.State.{Cpu, Env}
use yanesemu.Cpu.Exec.{Exec, pure, gets, modify, ◌>>=◌, ◌>>◌}
use yanesemu.Cpu.Access.{cycle, bus_read, bus_write, fetch, status, stack_base}
use yanesemu.Cpu.Alu
use yanesemu.Cpu.Modes
use yanesemu.Cpu.Modes.{InstrFuncRead, InstrFuncMod}
use yanesemu.Cpu.Control
use yanesemu.Cpu.Control.{Flag, Register, get_flag, get_register, nmi_vec, reset_vec, irq_brk_vec}
use yanesemu.Cpu.Control.{set_flags, interrupt}
use yanesemu.Cpu.Dispatch.{
  ReadOp, ReadMode, ModifyOp, ModifyMode, WriteMode, Implied, Entry, instr_table,
}

-- `&CPU::instr_…`
abbrev pub read_func : ReadOp → InstrFuncRead
read_func ReadOp.lda = Alu.instr_lda
read_func ReadOp.ldx = Alu.instr_ldx
read_func ReadOp.ldy = Alu.instr_ldy
read_func ReadOp.cmp = Alu.instr_cmp
read_func ReadOp.cpx = Alu.instr_cpx
read_func ReadOp.cpy = Alu.instr_cpy
read_func ReadOp.adc = Alu.instr_adc
read_func ReadOp.sbc = Alu.instr_sbc
read_func ReadOp.ora = Alu.instr_ora
read_func ReadOp.and = Alu.instr_and
read_func ReadOp.eor = Alu.instr_eor
read_func ReadOp.bit = Alu.instr_bit

abbrev pub modify_func : ModifyOp → InstrFuncMod
modify_func ModifyOp.inc = Alu.instr_inc
modify_func ModifyOp.dec = Alu.instr_dec
modify_func ModifyOp.asl = Alu.instr_asl
modify_func ModifyOp.lsr = Alu.instr_lsr
modify_func ModifyOp.rol = Alu.instr_rol
modify_func ModifyOp.ror = Alu.instr_ror

module _ {W : Type 0} ⦃env : Env W⦄ where
  abbrev pub addrmode_read : ReadMode → InstrFuncRead → Exec W (Unit {0})
  addrmode_read ReadMode.imm f = Modes.addrmode_imm_read f
  addrmode_read ReadMode.zero f = Modes.addrmode_zero_read f
  addrmode_read ReadMode.zerox f = Modes.addrmode_zerox_read f
  addrmode_read ReadMode.zeroy f = Modes.addrmode_zeroy_read f
  addrmode_read ReadMode.abs f = Modes.addrmode_abs_read f
  addrmode_read ReadMode.absx f = Modes.addrmode_absx_read f
  addrmode_read ReadMode.absy f = Modes.addrmode_absy_read f
  addrmode_read ReadMode.indx f = Modes.addrmode_indx_read f
  addrmode_read ReadMode.indy f = Modes.addrmode_indy_read f

  abbrev pub addrmode_modify : ModifyMode → InstrFuncMod → Exec W (Unit {0})
  addrmode_modify ModifyMode.accum f = Modes.addrmode_accum_modify f
  addrmode_modify ModifyMode.zero f = Modes.addrmode_zero_modify f
  addrmode_modify ModifyMode.zerox f = Modes.addrmode_zerox_modify f
  addrmode_modify ModifyMode.abs f = Modes.addrmode_abs_modify f
  addrmode_modify ModifyMode.absx f = Modes.addrmode_absx_modify f

  abbrev pub addrmode_write : WriteMode → ℕ → Exec W (Unit {0})
  addrmode_write WriteMode.zero val = Modes.addrmode_zero_write val
  addrmode_write WriteMode.zerox val = Modes.addrmode_zerox_write val
  addrmode_write WriteMode.zeroy val = Modes.addrmode_zeroy_write val
  addrmode_write WriteMode.abs val = Modes.addrmode_abs_write val
  addrmode_write WriteMode.absx val = Modes.addrmode_absx_write val
  addrmode_write WriteMode.absy val = Modes.addrmode_absy_write val
  addrmode_write WriteMode.indx val = Modes.addrmode_indx_write val
  addrmode_write WriteMode.indy val = Modes.addrmode_indy_write val

  abbrev pub implied : Implied → Exec W (Unit {0})
  implied Implied.brk = Control.instr_brk
  implied Implied.php = Control.instr_php
  implied Implied.plp = Control.instr_plp
  implied Implied.pha = Control.instr_pha
  implied Implied.pla = Control.instr_pla
  implied Implied.jsr = Control.instr_jsr
  implied Implied.jmp = Control.instr_jmp
  implied Implied.jmp_ind = Control.instr_jmp_ind
  implied Implied.rts = Control.instr_rts
  implied Implied.rti = Control.instr_rti
  implied Implied.inx = Control.instr_inx
  implied Implied.iny = Control.instr_iny
  implied Implied.dex = Control.instr_dex
  implied Implied.dey = Control.instr_dey
  implied Implied.nop = Control.instr_nop

  -- What the code of a case does. The value or the condition is computed before the call.
  unfoldable pub perform : Entry → Exec W (Unit {0})
  perform (Entry.impld i) = implied i
  perform (Entry.read op mode) = addrmode_read mode (read_func op)
  perform (Entry.modify op mode) = addrmode_modify mode (modify_func op)
  perform (Entry.write mode reg) = do v ← gets (λ c. get_register reg c.r); addrmode_write mode v
  perform (Entry.branch f v) = do
    take ← gets (λ c. if v then get_flag f c.flags else if get_flag f c.flags then false else true)
    Control.instr_branch take
  perform (Entry.flag f v) = Control.instr_flag f v
  perform (Entry.transfer from to) = do
    v ← gets (λ c. get_register from c.r)
    Control.instr_transfer v to

  -- The code of the case that was found; an unknown instruction does nothing.
  unfoldable pub perform_case : Option Entry → Exec W (Unit {0})
  perform_case none = pure tt
  perform_case (some e) = perform e

  unfoldable pub execute : ℕ → Exec W (Unit {0})
  execute instr = perform_case (lookup instr instr_table)

  -- `run` with the values of `execnmi` and `execirq`.
  unfoldable pub run_with : Bool → Bool → Exec W (Unit {0})
  run_with true irq = do cycle; interrupt; modify (λ c. record c { execnmi = false })
  run_with false true = do cycle; interrupt; modify (λ c. record c { execirq = false })
  run_with false false = do instr ← fetch; execute instr

  unfoldable pub run : Exec W (Unit {0})
  unfolding ◌>>=◌
  run = do nmi ← gets (λ c. c.execnmi); irq ← gets (λ c. c.execirq); run_with nmi irq

  -- `for (i = start; i < start + count; i++) bus->write(i, 0);`
  unfoldable pub clear_range : ℕ → ℕ → Exec W (Unit {0})
  clear_range zero start = pure tt
  clear_range (suc count) start = do bus_write start 0; clear_range count (start + 1)

  -- `power` up to its interrupt.
  unfoldable pub power_up : Exec W (Unit {0})
  power_up = do
    modify (λ c. record c { r = record c.r { acc = 0; x = 0; y = 0 } })
    clear_range 0x800 0
    modify (set_flags cleared)
    bus_write 0x4017 0
    bus_write 0x4015 0
    clear_range 0x13 0x4000
    modify (λ c. record c { r = record c.r { sp = 0 }; resetpending = true })

  unfoldable pub power : Exec W (Unit {0})
  power = do power_up; interrupt

  unfoldable pub reset : Exec W (Unit {0})
  reset = do bus_write 0x4015 0; modify (λ c. record c { resetpending = true }); interrupt

  unfoldable pub fire_irq : Exec W (Unit {0})
  fire_irq = modify (λ c. record c { irqpending = true })

  unfoldable pub fire_nmi : Exec W (Unit {0})
  fire_nmi = modify (λ c. record c { nmipending = true })

  -- `bus->read(lo) | bus->read(hi) << 8`
  unfoldable pub read_word : ℕ → ℕ → Exec W ℕ
  read_word lo hi = do l ← bus_read lo; h ← bus_read hi; pure (bit_or l (h * 2 ^ 8))

  unfoldable pub next_jmp_ind : ℕ → Exec W ℕ
  next_jmp_ind full =
      read_word full (if low full == 0xff then bit_and full 0xff00 else (full + 1) % 2 ^ 16)

  -- The `switch` of `nextaddr` on the fetched opcode; `st` holds the operands that were read.
  unfoldable pub next_of : ℕ → ℕ → Cpu → Exec W ℕ
  next_of id op c =
      if id == 0x00
      then pure
          (if c.resetpending then reset_vec else if c.nmipending then nmi_vec else irq_brk_vec)
      else if id == 0x20
      then pure op
      else if id == 0x4c
      then pure op
      else if id == 0x6c
      then next_jmp_ind op
      else if id == 0x60
      then (do
        w ← read_word (c.sp + 1 + stack_base) (c.sp + 2 + stack_base)
        pure ((1 + w) % 2 ^ 16))
      else if id == 0x40
      then read_word (c.sp + 1 + stack_base) (c.sp + 2 + stack_base)
      else if took_branch id c.flags
      then pure (branch_pointer (low op) c.pc)
      else pure ((c.pc + num_bytes id) % 2 ^ 16)

  unfoldable pub nextaddr : Exec W ℕ
  nextaddr = do st ← status; c ← gets (λ c. c); next_of st.id st.op c
