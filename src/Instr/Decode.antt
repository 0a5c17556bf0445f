-- ===== src/Instr/Decode.antt =====
-- emu/core/instrinfo.hpp and instrinfo.cpp: lengths, branches and jumps, as the debugger and
-- `CPU::nextaddr` read them off an opcode.
use yanesemu.Prelude.{ℕ, ◌+◌, ◌%◌, ◌^◌, bit_and, ltb, ◌==◌}
use yanesemu.Prelude.{Bool, false, not, ◌||◌, if◌then◌else◌, none, some, lookup}
use yanesemu.Instr.Status.{ProcStatus}
use yanesemu.Instr.Table.{Mode, instr_mode}

-- The constants `nb_*` of `num_bytes`.
abbrev pub mode_bytes : Mode → ℕ
mode_bytes Mode.impld = 1
mode_bytes Mode.accum = 1
mode_bytes Mode.branch = 2
mode_bytes Mode.imm = 2
mode_bytes Mode.zero = 2
mode_bytes Mode.zerox = 2
mode_bytes Mode.zeroy = 2
mode_bytes Mode.indx = 2
mode_bytes Mode.indy = 2
mode_bytes Mode.abs = 3
mode_bytes Mode.absx = 3
mode_bytes Mode.absy = 3
mode_bytes Mode.ind = 3

unfoldable pub num_bytes : ℕ → ℕ
num_bytes id = elim (lookup id instr_mode) [ none ↦ 1 | some row ↦ mode_bytes row.1 ]

unfoldable pub is_branch : ℕ → Bool
is_branch instr = bit_and instr 0x1f == 0x10

-- The cases of the `switch` of `took_branch`, in its order.
unfoldable pub took_branch : ℕ → ProcStatus → Bool
took_branch instr ps =
    if instr == 0x10
    then not ps.neg
    else if instr == 0x30
    then ps.neg
    else if instr == 0x50
    then not ps.ov
    else if instr == 0x70
    then ps.ov
    else if instr == 0x90
    then not ps.carry
    else if instr == 0xb0
    then ps.carry
    else if instr == 0xd0
    then not ps.zero
    else if instr == 0xf0
    then ps.zero
    else false

-- `(int8_t) b`, as a number modulo 2 ^ 16.
unfoldable pub sign_extend : ℕ → ℕ
sign_extend b = if ltb b 128 then b else b + 0xff00

unfoldable pub branch_pointer : ℕ → ℕ → ℕ
branch_pointer branch_arg pc = (pc + 2 + sign_extend branch_arg) % 2 ^ 16

unfoldable pub is_jump : ℕ → Bool
is_jump instr = instr == 0x20 || instr == 0x4c || instr == 0x6c
