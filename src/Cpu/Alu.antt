-- ===== src/Cpu/Alu.antt =====
-- emu/core/instructions.cpp: the instruction functions that work on the registers alone. A function
-- of the type `InstrFuncRead` takes the operand, one of the type `InstrFuncMod` returns the new one.
-- An `int` is its 32-bit pattern.
pub mod Words
pub mod Arithmetic
pub mod Shifts
use yanesemu.Prelude.{ℕ, ◌+◌, ◌-◌, ◌*◌, ◌/◌, ◌%◌, ◌^◌, bit_and, bit_or, bit_xor}
use yanesemu.Prelude.{Bool, ltb, ◌==◌, to_bool, bit}
use yanesemu.Instr.Status.{ProcStatus}
use yanesemu.Cpu.State.{Regs}

-- `a - b`, `a >= 0` and `~a` of an `int`.
abbrev pub int_sub : ℕ → ℕ → ℕ
int_sub a b = (a + 2 ^ 32 - b) % 2 ^ 32

abbrev pub int_nonneg : ℕ → Bool
int_nonneg a = ltb a (2 ^ 31)

abbrev pub int_not : ℕ → ℕ
int_not a = 2 ^ 32 - 1 - a

-- The flags `zero` and `neg` of a byte, which most instructions set.
abbrev pub zero_neg : ℕ → ProcStatus → ProcStatus
zero_neg v p = record p { zero = v == 0; neg = to_bool (bit_and v 0x80) }

unfoldable pub instr_lda : ℕ → Regs → Regs
instr_lda val r = record r { acc = val; flags = zero_neg val r.flags }

unfoldable pub instr_ldx : ℕ → Regs → Regs
instr_ldx val r = record r { x = val; flags = zero_neg val r.flags }

unfoldable pub instr_ldy : ℕ → Regs → Regs
instr_ldy val r = record r { y = val; flags = zero_neg val r.flags }

-- What `instr_cmp`, `instr_cpx` and `instr_cpy` do with `res`.
abbrev pub compare_flags : ℕ → ProcStatus → ProcStatus
compare_flags res p = record p {
  zero = res == 0;
  neg = to_bool (bit_and res 0x80);
  carry = int_nonneg res;
}

unfoldable pub instr_cmp : ℕ → Regs → Regs
instr_cmp val r = record r { flags = compare_flags (int_sub r.acc val) r.flags }

unfoldable pub instr_cpx : ℕ → Regs → Regs
instr_cpx val r = record r { flags = compare_flags (int_sub r.x val) r.flags }

unfoldable pub instr_cpy : ℕ → Regs → Regs
instr_cpy val r = record r { flags = compare_flags (int_sub r.y val) r.flags }

-- What `instr_adc` and `instr_sbc` do with `sum`; both take the overflow from `val`.
abbrev pub sum_flags : ℕ → ℕ → ℕ → ProcStatus → ProcStatus
sum_flags acc val sum p = record p {
  zero = sum % 2 ^ 8 == 0;
  neg = to_bool (bit_and sum 0x80);
  carry = ltb 0xff sum;
  ov = to_bool (bit_and (bit_and (bit_xor acc sum) (int_not (bit_xor acc val))) 0x80);
}

unfoldable pub instr_adc : ℕ → Regs → Regs
instr_adc val r =
    let sum = r.acc + val + bit r.flags.carry in
    record r { acc = sum % 2 ^ 8; flags = sum_flags r.acc val sum r.flags }

unfoldable pub instr_sbc : ℕ → Regs → Regs
instr_sbc val r =
    let tmp = int_not val % 2 ^ 8 in
    let sum = r.acc + tmp + bit r.flags.carry in
    record r { acc = sum % 2 ^ 8; flags = sum_flags r.acc val sum r.flags }

unfoldable pub instr_ora : ℕ → Regs → Regs
instr_ora val r = let acc = bit_or r.acc val in record r { acc = acc; flags = zero_neg acc r.flags }

unfoldable pub instr_and : ℕ → Regs → Regs
instr_and val r =
    let acc = bit_and r.acc val in record r { acc = acc; flags = zero_neg acc r.flags }

unfoldable pub instr_eor : ℕ → Regs → Regs
instr_eor val r =
    let acc = bit_xor r.acc val in record r { acc = acc; flags = zero_neg acc r.flags }

unfoldable pub instr_bit : ℕ → Regs → Regs
instr_bit val r = record r {
  flags = record r.flags {
    neg = bit_and r.acc val == 0;
    zero = val == 0;
    ov = to_bool (bit_and val 0x40);
  };
}

-- The result of a modifying instruction sets `zero` and `neg`.
abbrev pub returning : ℕ → Regs → ℕ × Regs
returning v r = (v, record r { flags = zero_neg v r.flags })

abbrev pub set_carry : Bool → Regs → Regs
set_carry b r = record r { flags = record r.flags { carry = b } }

unfoldable pub instr_inc : ℕ → Regs → ℕ × Regs
instr_inc val r = returning ((val + 1) % 2 ^ 8) r

unfoldable pub instr_dec : ℕ → Regs → ℕ × Regs
instr_dec val r = returning ((val + 2 ^ 8 - 1) % 2 ^ 8) r

unfoldable pub instr_asl : ℕ → Regs → ℕ × Regs
instr_asl val r = returning (val * 2 % 2 ^ 8) (set_carry (to_bool (bit_and val 0x80)) r)

unfoldable pub instr_lsr : ℕ → Regs → ℕ × Regs
instr_lsr val r = returning (val / 2) (set_carry (to_bool (bit_and val 1)) r)

unfoldable pub instr_rol : ℕ → Regs → ℕ × Regs
instr_rol val r =
    let c = r.flags.carry in
    returning (bit_or (val * 2) (bit c) % 2 ^ 8) (set_carry (to_bool (bit_and val 0x80)) r)

unfoldable pub instr_ror : ℕ → Regs → ℕ × Regs
instr_ror val r =
    let c = r.flags.carry in
    returning (bit_or (val / 2) (bit c * 2 ^ 7) % 2 ^ 8) (set_carry (to_bool (bit_and val 1)) r)
