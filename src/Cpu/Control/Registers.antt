-- ===== src/Cpu/Control/Registers.antt =====
-- emu/core/instructions.cpp and cpu.cpp: the flags and registers that an instruction names, and the
-- choice of the interrupt vector.
use yanesemu.Prelude.{ℕ, Bool, false, if◌then◌else◌}
use yanesemu.Instr.Status.{ProcStatus}
use yanesemu.Cpu.State.{Cpu, Regs}
use yanesemu.Cpu.Alu.{zero_neg}

abbrev pub nmi_vec : ℕ
nmi_vec = 0xfffa

abbrev pub reset_vec : ℕ
reset_vec = 0xfffc

abbrev pub irq_brk_vec : ℕ
irq_brk_vec = 0xfffe

-- The flags and registers that an instruction of the dispatch names.
pub data Flag : Type 0 where
  carry zero intdis decimal ov neg : Flag

pub data Register : Type 0 where
  acc x y sp : Register

abbrev pub get_flag : Flag → ProcStatus → Bool
get_flag Flag.carry p = p.carry
get_flag Flag.zero p = p.zero
get_flag Flag.intdis p = p.intdis
get_flag Flag.decimal p = p.decimal
get_flag Flag.ov p = p.ov
get_flag Flag.neg p = p.neg

abbrev pub set_flag : Flag → Bool → ProcStatus → ProcStatus
set_flag Flag.carry v p = record p { carry = v }
set_flag Flag.zero v p = record p { zero = v }
set_flag Flag.intdis v p = record p { intdis = v }
set_flag Flag.decimal v p = record p { decimal = v }
set_flag Flag.ov v p = record p { ov = v }
set_flag Flag.neg v p = record p { neg = v }

abbrev pub get_register : Register → Regs → ℕ
get_register Register.acc r = r.acc
get_register Register.x r = r.x
get_register Register.y r = r.y
get_register Register.sp r = r.sp

abbrev pub set_register : Register → ℕ → Regs → Regs
set_register Register.acc v r = record r { acc = v }
set_register Register.x v r = record r { x = v }
set_register Register.y v r = record r { y = v }
set_register Register.sp v r = record r { sp = v }

abbrev pub set_flags : ProcStatus → Cpu → Cpu
set_flags p c = record c { r = record c.r { flags = p } }

abbrev pub set_breakf : Bool → Cpu → Cpu
set_breakf v c = set_flags (record c.flags { breakf = v }) c

-- `to = from` with the flags of a transfer; also what `instr_pla` does with the accumulator.
abbrev pub transfer : Register → ℕ → Regs → Regs
transfer to from r = let r' = set_register to from r in record r' { flags = zero_neg from r'.flags }

-- The signal that an interrupt takes, cleared, and its vector.
abbrev pub take_vector : Cpu → ℕ × Cpu
take_vector c =
    if c.resetpending
    then (reset_vec, record c { resetpending = false })
    else if c.nmipending
    then (nmi_vec, record c { nmipending = false })
    else if c.irqpending
    then (irq_brk_vec, record c { irqpending = false })
    else (irq_brk_vec, c)
