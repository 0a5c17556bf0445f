-- ===== src/Cpu/Agreement.antt =====
-- emu/core/cpu.cpp and instrinfo.cpp: where the dispatch table, the table of addressing modes and
-- the `switch` of `nextaddr` agree.
use yanesemu.Prelude.{
  ℕ, ◌+◌, ◌≡◌, refl, arith, Bool, true, false, not, ◌&&◌, ◌||◌, ◌==◌, Option, none, some, lookup,
  all_rows, all_below, if◌then◌else◌,
}
use yanesemu.Instr.Table.{instr_mode}
use yanesemu.Instr.Decode.{num_bytes}
use yanesemu.Cpu.Control.{Flag}
use yanesemu.Cpu.Dispatch.{Implied, Entry, instr_table}
use yanesemu.Cpu.Steps.{is_plain, operand_bytes}

-- The opcode of each branch.
abbrev pub branch_id : Flag → Bool → Option ℕ
branch_id Flag.neg v = some (if v then 0x30 else 0x10)
branch_id Flag.ov v = some (if v then 0x70 else 0x50)
branch_id Flag.carry v = some (if v then 0xb0 else 0x90)
branch_id Flag.zero v = some (if v then 0xf0 else 0xd0)
branch_id f v = none

-- The opcodes that `nextaddr` does not treat by their length.
abbrev pub is_ordinary : ℕ → Bool
is_ordinary id =
    not (id == 0x00 || id == 0x20 || id == 0x4c || id == 0x6c || id == 0x60 || id == 0x40)
    && not (
        id == 0x10
        || id == 0x30
        || id == 0x50
        || id == 0x70
        || id == 0x90
        || id == 0xb0
        || id == 0xd0
        || id == 0xf0)

-- What a row of the dispatch table has to be for `nextaddr` to treat its opcode rightly.
unfoldable pub row_agrees : ℕ → Entry → Bool
row_agrees id (Entry.impld Implied.brk) = id == 0x00
row_agrees id (Entry.impld Implied.jsr) = id == 0x20
row_agrees id (Entry.impld Implied.jmp) = id == 0x4c
row_agrees id (Entry.impld Implied.jmp_ind) = id == 0x6c
row_agrees id (Entry.impld Implied.rts) = id == 0x60
row_agrees id (Entry.impld Implied.rti) = id == 0x40
row_agrees id (Entry.branch f v) = elim (branch_id f v) [ none ↦ false | some k ↦ id == k ]
row_agrees id e = is_ordinary id && num_bytes id == operand_bytes e + 1

-- The dispatch table and the table of addressing modes agree, row by row.
pub table_agrees : all_rows row_agrees instr_table ≡ true
unfolding all_rows row_agrees instr_table num_bytes lookup instr_mode
table_agrees = refl

abbrev pub is_some : {A : Type 0} → Option A → Bool
is_some none = false
is_some (some a) = true

-- An opcode that neither table holds has one byte.
pub unknown_agrees :
    all_below (λ id. is_some (lookup id instr_table) || (is_ordinary id && num_bytes id == 1)) 256
    ≡ true
unfolding all_below instr_table num_bytes lookup instr_mode
unknown_agrees = refl

pub plain_agrees :
    (id : ℕ) (e : Entry)
    → is_plain e ≡ true
    → row_agrees id e ≡ true
    → (is_ordinary id ≡ true) × (num_bytes id ≡ operand_bytes e + 1)
unfolding row_agrees
plain_agrees id (Entry.impld Implied.brk) p h = cc
plain_agrees id (Entry.impld Implied.jsr) p h = cc
plain_agrees id (Entry.impld Implied.jmp) p h = cc
plain_agrees id (Entry.impld Implied.jmp_ind) p h = cc
plain_agrees id (Entry.impld Implied.rts) p h = cc
plain_agrees id (Entry.impld Implied.rti) p h = cc
plain_agrees id (Entry.branch f v) p h = cc
plain_agrees id e p h = ground arith
