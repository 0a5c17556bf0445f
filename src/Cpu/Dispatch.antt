-- ===== src/Cpu/Dispatch.antt =====
-- emu/core/cpu.cpp: the cases of the `switch` in `CPU::execute`, as a table. A row holds what the
-- macro of its case names.
use yanesemu.Prelude.{ℕ, Bool, true, false, List, [], ◌∷◌}
use yanesemu.Cpu.Control.{Flag, Register}

pub data ReadOp : Type 0 where
  lda ldx ldy cmp cpx cpy adc sbc ora and eor bit : ReadOp

pub data ReadMode : Type 0 where
  imm zero zerox zeroy abs absx absy indx indy : ReadMode

pub data ModifyOp : Type 0 where
  inc dec asl lsr rol ror : ModifyOp

pub data ModifyMode : Type 0 where
  accum zero zerox abs absx : ModifyMode

pub data WriteMode : Type 0 where
  zero zerox zeroy abs absx absy indx indy : WriteMode

pub data Implied : Type 0 where
  brk php plp pha pla jsr jmp jmp_ind rts rti inx iny dex dey nop : Implied

-- A case of the `switch`: INSTR_IMPLD, INSTR_AMODE of both types, INSTR_WRITE and INSTR_OTHER with
-- each of its three functions.
pub data Entry : Type 0 where
  impld : Implied → Entry
  read : ReadOp → ReadMode → Entry
  modify : ModifyOp → ModifyMode → Entry
  write : WriteMode → Register → Entry
  branch : Flag → Bool → Entry
  flag : Flag → Bool → Entry
  transfer : Register → Register → Entry

unfoldable pub instr_table : List (ℕ × Entry)
instr_table =
    (0x00, Entry.impld Implied.brk)
    ∷ (0x01, Entry.read ReadOp.ora ReadMode.indx)
    ∷ (0x05, Entry.read ReadOp.ora ReadMode.zero)
    ∷ (0x06, Entry.modify ModifyOp.asl ModifyMode.zero)
    ∷ (0x08, Entry.impld Implied.php)
    ∷ (0x09, Entry.read ReadOp.ora ReadMode.imm)
    ∷ (0x0a, Entry.modify ModifyOp.asl ModifyMode.accum)
    ∷ (0x0d, Entry.read ReadOp.ora ReadMode.abs)
    ∷ (0x0e, Entry.modify ModifyOp.asl ModifyMode.abs)
    ∷ (0x10, Entry.branch Flag.neg false)
    ∷ (0x11, Entry.read ReadOp.ora ReadMode.indy)
    ∷ (0x15, Entry.read ReadOp.ora ReadMode.zerox)
    ∷ (0x16, Entry.modify ModifyOp.asl ModifyMode.zerox)
    ∷ (0x18, Entry.flag Flag.carry false)
    ∷ (0x19, Entry.read ReadOp.ora ReadMode.absy)
    ∷ (0x1d, Entry.read ReadOp.ora ReadMode.absx)
    ∷ (0x1e, Entry.modify ModifyOp.asl ModifyMode.absx)
    ∷ (0x20, Entry.impld Implied.jsr)
    ∷ (0x21, Entry.read ReadOp.and ReadMode.indx)
    ∷ (0x24, Entry.read ReadOp.bit ReadMode.zero)
    ∷ (0x25, Entry.read ReadOp.and ReadMode.zero)
    ∷ (0x26, Entry.modify ModifyOp.rol ModifyMode.zero)
    ∷ (0x28, Entry.impld Implied.plp)
    ∷ (0x29, Entry.read ReadOp.and ReadMode.imm)
    ∷ (0x2a, Entry.modify ModifyOp.rol ModifyMode.accum)
    ∷ (0x2c, Entry.read ReadOp.bit ReadMode.abs)
    ∷ (0x2d, Entry.read ReadOp.and ReadMode.abs)
    ∷ (0x2e, Entry.modify ModifyOp.rol ModifyMode.abs)
    ∷ (0x30, Entry.branch Flag.neg true)
    ∷ (0x31, Entry.read ReadOp.and ReadMode.indy)
    ∷ (0x35, Entry.read ReadOp.and ReadMode.zerox)
    ∷ (0x36, Entry.modify ModifyOp.rol ModifyMode.zerox)
    ∷ (0x38, Entry.flag Flag.carry true)
    ∷ (0x39, Entry.read ReadOp.and ReadMode.absy)
    ∷ (0x3d, Entry.read ReadOp.and ReadMode.absx)
    ∷ (0x3e, Entry.modify ModifyOp.rol ModifyMode.absx)
    ∷ (0x40, Entry.impld Implied.rti)
    ∷ (0x41, Entry.read ReadOp.eor ReadMode.indx)
    ∷ (0x45, Entry.read ReadOp.eor ReadMode.zero)
    ∷ (0x46, Entry.modify ModifyOp.lsr ModifyMode.zero)
    ∷ (0x48, Entry.impld Implied.pha)
    ∷ (0x49, Entry.read ReadOp.eor ReadMode.imm)
    ∷ (0x4a, Entry.modify ModifyOp.lsr ModifyMode.accum)
    ∷ (0x4c, Entry.impld Implied.jmp)
    ∷ (0x4d, Entry.read ReadOp.eor ReadMode.abs)
    ∷ (0x4e, Entry.modify ModifyOp.lsr ModifyMode.abs)
    ∷ (0x50, Entry.branch Flag.ov false)
    ∷ (0x51, Entry.read ReadOp.eor ReadMode.indy)
    ∷ (0x55, Entry.read ReadOp.eor ReadMode.zerox)
    ∷ (0x56, Entry.modify ModifyOp.lsr ModifyMode.zerox)
    ∷ (0x58, Entry.flag Flag.intdis false)
    ∷ (0x59, Entry.read ReadOp.eor ReadMode.absy)
    ∷ (0x5d, Entry.read ReadOp.eor ReadMode.absx)
    ∷ (0x5e, Entry.modify ModifyOp.lsr ModifyMode.absx)
    ∷ (0x60, Entry.impld Implied.rts)
    ∷ (0x61, Entry.read ReadOp.adc ReadMode.indx)
    ∷ (0x65, Entry.read ReadOp.adc ReadMode.zero)
    ∷ (0x66, Entry.modify ModifyOp.ror ModifyMode.zero)
    ∷ (0x68, Entry.impld Implied.pla)
    ∷ (0x69, Entry.read ReadOp.adc ReadMode.imm)
    ∷ (0x6a, Entry.modify ModifyOp.ror ModifyMode.accum)
    ∷ (0x6c, Entry.impld Implied.jmp_ind)
    ∷ (0x6d, Entry.read ReadOp.adc ReadMode.abs)
    ∷ (0x6e, Entry.modify ModifyOp.ror ModifyMode.abs)
    ∷ (0x70, Entry.branch Flag.ov true)
    ∷ (0x71, Entry.read ReadOp.adc ReadMode.indy)
    ∷ (0x75, Entry.read ReadOp.adc ReadMode.zerox)
    ∷ (0x76, Entry.modify ModifyOp.ror ModifyMode.zerox)
    ∷ (0x78, Entry.flag Flag.intdis true)
    ∷ (0x79, Entry.read ReadOp.adc ReadMode.absy)
    ∷ (0x7d, Entry.read ReadOp.adc ReadMode.absx)
    ∷ (0x7e, Entry.modify ModifyOp.ror ModifyMode.absx)
    ∷ (0x81, Entry.write WriteMode.indx Register.acc)
    ∷ (0x84, Entry.write WriteMode.zero Register.y)
    ∷ (0x85, Entry.write WriteMode.zero Register.acc)
    ∷ (0x86, Entry.write WriteMode.zero Register.x)
    ∷ (0x88, Entry.impld Implied.dey)
    ∷ (0x8a, Entry.transfer Register.x Register.acc)
    ∷ (0x8c, Entry.write WriteMode.abs Register.y)
    ∷ (0x8d, Entry.write WriteMode.abs Register.acc)
    ∷ (0x8e, Entry.write WriteMode.abs Register.x)
    ∷ (0x90, Entry.branch Flag.carry false)
    ∷ (0x91, Entry.write WriteMode.indy Register.acc)
    ∷ (0x94, Entry.write WriteMode.zerox Register.y)
    ∷ (0x95, Entry.write WriteMode.zerox Register.acc)
    ∷ (0x96, Entry.write WriteMode.zeroy Register.x)
    ∷ (0x98, Entry.transfer Register.y Register.acc)
    ∷ (0x99, Entry.write WriteMode.absy Register.acc)
    ∷ (0x9a, Entry.transfer Register.x Register.sp)
    ∷ (0x9d, Entry.write WriteMode.absx Register.acc)
    ∷ (0xa0, Entry.read ReadOp.ldy ReadMode.imm)
    ∷ (0xa1, Entry.read ReadOp.lda ReadMode.indx)
    ∷ (0xa2, Entry.read ReadOp.ldx ReadMode.imm)
    ∷ (0xa4, Entry.read ReadOp.ldy ReadMode.zero)
    ∷ (0xa5, Entry.read ReadOp.lda ReadMode.zero)
    ∷ (0xa6, Entry.read ReadOp.ldx ReadMode.zero)
    ∷ (0xa8, Entry.transfer Register.acc Register.y)
    ∷ (0xa9, Entry.read ReadOp.lda ReadMode.imm)
    ∷ (0xaa, Entry.transfer Register.acc Register.x)
    ∷ (0xac, Entry.read ReadOp.ldy ReadMode.abs)
    ∷ (0xad, Entry.read ReadOp.lda ReadMode.abs)
    ∷ (0xae, Entry.read ReadOp.ldx ReadMode.abs)
    ∷ (0xb0, Entry.branch Flag.carry true)
    ∷ (0xb1, Entry.read ReadOp.lda ReadMode.indy)
    ∷ (0xb4, Entry.read ReadOp.ldy ReadMode.zerox)
    ∷ (0xb5, Entry.read ReadOp.lda ReadMode.zerox)
    ∷ (0xb6, Entry.read ReadOp.ldx ReadMode.zeroy)
    ∷ (0xb8, Entry.flag Flag.ov false)
    ∷ (0xb9, Entry.read ReadOp.lda ReadMode.absy)
    ∷ (0xba, Entry.transfer Register.sp Register.x)
    ∷ (0xbc, Entry.read ReadOp.ldy ReadMode.absx)
    ∷ (0xbd, Entry.read ReadOp.lda ReadMode.absx)
    ∷ (0xbe, Entry.read ReadOp.ldx ReadMode.absy)
    ∷ (0xc0, Entry.read ReadOp.cpy ReadMode.imm)
    ∷ (0xc1, Entry.read ReadOp.cmp ReadMode.indx)
    ∷ (0xc4, Entry.read ReadOp.cpy ReadMode.zero)
    ∷ (0xc5, Entry.read ReadOp.cmp ReadMode.zero)
    ∷ (0xc6, Entry.modify ModifyOp.dec ModifyMode.zero)
    ∷ (0xc8, Entry.impld Implied.iny)
    ∷ (0xc9, Entry.read ReadOp.cmp ReadMode.imm)
    ∷ (0xca, Entry.impld Implied.dex)
    ∷ (0xcc, Entry.read ReadOp.cpy ReadMode.abs)
    ∷ (0xcd, Entry.read ReadOp.cmp ReadMode.abs)
    ∷ (0xce, Entry.modify ModifyOp.dec ModifyMode.abs)
    ∷ (0xd0, Entry.branch Flag.zero false)
    ∷ (0xd1, Entry.read ReadOp.cmp ReadMode.indy)
    ∷ (0xd5, Entry.read ReadOp.cmp ReadMode.zerox)
    ∷ (0xd6, Entry.modify ModifyOp.dec ModifyMode.zerox)
    ∷ (0xd8, Entry.flag Flag.decimal false)
    ∷ (0xd9, Entry.read ReadOp.cmp ReadMode.absy)
    ∷ (0xdd, Entry.read ReadOp.cmp ReadMode.absx)
    ∷ (0xde, Entry.modify ModifyOp.dec ModifyMode.absx)
    ∷ (0xe0, Entry.read ReadOp.cpx ReadMode.imm)
    ∷ (0xe1, Entry.read ReadOp.sbc ReadMode.indx)
    ∷ (0xe4, Entry.read ReadOp.cpx ReadMode.zero)
    ∷ (0xe5, Entry.read ReadOp.sbc ReadMode.zero)
    ∷ (0xe6, Entry.modify ModifyOp.inc ModifyMode.zero)
    ∷ (0xe8, Entry.impld Implied.inx)
    ∷ (0xe9, Entry.read ReadOp.sbc ReadMode.imm)
    ∷ (0xea, Entry.impld Implied.nop)
    ∷ (0xec, Entry.read ReadOp.cpx ReadMode.abs)
    ∷ (0xed, Entry.read ReadOp.sbc ReadMode.abs)
    ∷ (0xee, Entry.modify ModifyOp.inc ModifyMode.abs)
    ∷ (0xf0, Entry.branch Flag.zero true)
    ∷ (0xf1, Entry.read ReadOp.sbc ReadMode.indy)
    ∷ (0xf5, Entry.read ReadOp.sbc ReadMode.zerox)
    ∷ (0xf6, Entry.modify ModifyOp.inc ModifyMode.zerox)
    ∷ (0xf8, Entry.flag Flag.decimal true)
    ∷ (0xf9, Entry.read ReadOp.sbc ReadMode.absy)
    ∷ (0xfd, Entry.read ReadOp.sbc ReadMode.absx)
    ∷ (0xfe, Entry.modify ModifyOp.inc ModifyMode.absx)
    ∷ []
