-- ===== src/Instr/Table.antt =====
-- emu/core/instrinfo.cpp: the table `INSTR_MODE` of the addressing mode of each opcode.
use Prim.Native.String.{String}
use yanesemu.Prelude.{ℕ, List, [], ◌∷◌}

pub data Mode : Type 0 where
  impld accum branch imm zero zerox zeroy indx indy abs absx absy ind : Mode

unfoldable pub instr_mode : List (ℕ × (String × Mode))
instr_mode =
    (0x00, ("brk", Mode.impld))
    ∷ (0x01, ("ora", Mode.indx))
    ∷ (0x05, ("ora", Mode.zero))
    ∷ (0x06, ("asl", Mode.zero))
    ∷ (0x08, ("php", Mode.impld))
    ∷ (0x09, ("ora", Mode.imm))
    ∷ (0x0a, ("asl", Mode.accum))
    ∷ (0x0d, ("ora", Mode.abs))
    ∷ (0x0e, ("asl", Mode.abs))
    ∷ (0x10, ("bpl", Mode.branch))
    ∷ (0x11, ("ora", Mode.indy))
    ∷ (0x15, ("ora", Mode.zerox))
    ∷ (0x16, ("asl", Mode.zerox))
    ∷ (0x18, ("clc", Mode.impld))
    ∷ (0x19, ("ora", Mode.absy))
    ∷ (0x1d, ("ora", Mode.absx))
    ∷ (0x1e, ("asl", Mode.absx))
    ∷ (0x20, ("jsr", Mode.abs))
    ∷ (0x21, ("and", Mode.indx))
    ∷ (0x24, ("bit", Mode.zero))
    ∷ (0x25, ("and", Mode.zero))
    ∷ (0x26, ("rol", Mode.zero))
    ∷ (0x28, ("plp", Mode.impld))
    ∷ (0x29, ("and", Mode.imm))
    ∷ (0x2a, ("rol", Mode.accum))
    ∷ (0x2c, ("bit", Mode.abs))
    ∷ (0x2d, ("and", Mode.abs))
    ∷ (0x2e, ("rol", Mode.abs))
    ∷ (0x30, ("bmi", Mode.branch))
    ∷ (0x31, ("and", Mode.indy))
    ∷ (0x35, ("and", Mode.zerox))
    ∷ (0x36, ("rol", Mode.zerox))
    ∷ (0x38, ("sec", Mode.impld))
    ∷ (0x39, ("and", Mode.absy))
    ∷ (0x3d, ("and", Mode.absx))
    ∷ (0x3e, ("rol", Mode.absx))
    ∷ (0x40, ("rti", Mode.impld))
    ∷ (0x41, ("eor", Mode.indx))
    ∷ (0x45, ("eor", Mode.zero))
    ∷ (0x46, ("lsr", Mode.zero))
    ∷ (0x48, ("pha", Mode.impld))
    ∷ (0x49, ("eor", Mode.imm))
    ∷ (0x4a, ("lsr", Mode.accum))
    ∷ (0x4c, ("jmp", Mode.abs))
    ∷ (0x4d, ("eor", Mode.abs))
    ∷ (0x4e, ("lsr", Mode.abs))
    ∷ (0x50, ("bvc", Mode.branch))
    ∷ (0x51, ("eor", Mode.indy))
    ∷ (0x55, ("eor", Mode.zerox))
    ∷ (0x56, ("lsr", Mode.zerox))
    ∷ (0x58, ("cli", Mode.impld))
    ∷ (0x59, ("eor", Mode.absy))
    ∷ (0x5d, ("eor", Mode.absx))
    ∷ (0x5e, ("lsr", Mode.absx))
    ∷ (0x60, ("rts", Mode.impld))
    ∷ (0x61, ("adc", Mode.indx))
    ∷ (0x65, ("adc", Mode.zero))
    ∷ (0x66, ("ror", Mode.zero))
    ∷ (0x68, ("pla", Mode.impld))
    ∷ (0x69, ("adc", Mode.imm))
    ∷ (0x6a, ("ror", Mode.accum))
    ∷ (0x6c, ("jmp", Mode.ind))
    ∷ (0x6d, ("adc", Mode.abs))
    ∷ (0x6e, ("ror", Mode.abs))
    ∷ (0x70, ("bvs", Mode.branch))
    ∷ (0x71, ("adc", Mode.indy))
    ∷ (0x75, ("adc", Mode.zerox))
    ∷ (0x76, ("ror", Mode.zerox))
    ∷ (0x78, ("sei", Mode.impld))
    ∷ (0x79, ("adc", Mode.absy))
    ∷ (0x7d, ("adc", Mode.absx))
    ∷ (0x7e, ("ror", Mode.absx))
    ∷ (0x81, ("sta", Mode.indx))
    ∷ (0x84, ("sty", Mode.zero))
    ∷ (0x85, ("sta", Mode.zero))
    ∷ (0x86, ("stx", Mode.zero))
    ∷ (0x88, ("dey", Mode.impld))
    ∷ (0x8a, ("txa", Mode.impld))
    ∷ (0x8c, ("sty", Mode.abs))
    ∷ (0x8d, ("sta", Mode.abs))
    ∷ (0x8e, ("stx", Mode.abs))
    ∷ (0x90, ("bcc", Mode.branch))
    ∷ (0x91, ("sta", Mode.indy))
    ∷ (0x94, ("sta", Mode.zerox))
    ∷ (0x95, ("sta", Mode.zerox))
    ∷ (0x96, ("stx", Mode.zeroy))
    ∷ (0x98, ("tya", Mode.impld))
    ∷ (0x99, ("sta", Mode.absy))
    ∷ (0x9a, ("txs", Mode.impld))
    ∷ (0x9d, ("sta", Mode.absx))
    ∷ (0xa0, ("ldy", Mode.imm))
    ∷ (0xa1, ("lda", Mode.indx))
    ∷ (0xa2, ("ldx", Mode.imm))
    ∷ (0xa4, ("ldy", Mode.zero))
    ∷ (0xa5, ("lda", Mode.zero))
    ∷ (0xa6, ("ldx", Mode.zero))
    ∷ (0xa8, ("tay", Mode.impld))
    ∷ (0xa9, ("lda", Mode.imm))
    ∷ (0xaa, ("tax", Mode.impld))
    ∷ (0xac, ("ldy", Mode.abs))
    ∷ (0xad, ("lda", Mode.abs))
    ∷ (0xae, ("ldx", Mode.abs))
    ∷ (0xb0, ("bcs", Mode.branch))
    ∷ (0xb1, ("lda", Mode.indy))
    ∷ (0xb4, ("ldy", Mode.zerox))
    ∷ (0xb5, ("lda", Mode.zerox))
    ∷ (0xb6, ("ldx", Mode.zeroy))
    ∷ (0xb8, ("clv", Mode.impld))
    ∷ (0xb9, ("lda", Mode.absy))
    ∷ (0xba, ("tsx", Mode.impld))
    ∷ (0xbc, ("ldy", Mode.absx))
    ∷ (0xbd, ("lda", Mode.absx))
    ∷ (0xbe, ("ldx", Mode.absy))
    ∷ (0xc0, ("cpy", Mode.imm))
    ∷ (0xc1, ("cmp", Mode.indx))
    ∷ (0xc4, ("cpy", Mode.zero))
    ∷ (0xc5, ("cmp", Mode.zero))
    ∷ (0xc6, ("dec", Mode.zero))
    ∷ (0xc8, ("iny", Mode.impld))
    ∷ (0xc9, ("cmp", Mode.imm))
    ∷ (0xca, ("dex", Mode.impld))
    ∷ (0xcc, ("cpy", Mode.abs))
    ∷ (0xcd, ("cmp", Mode.abs))
    ∷ (0xce, ("dec", Mode.abs))
    ∷ (0xd0, ("bne", Mode.branch))
    ∷ (0xd1, ("cmp", Mode.indy))
    ∷ (0xd5, ("cmp", Mode.zerox))
    ∷ (0xd6, ("dec", Mode.zerox))
    ∷ (0xd8, ("cld", Mode.impld))
    ∷ (0xd9, ("cmp", Mode.absy))
    ∷ (0xdd, ("cmp", Mode.absx))
    ∷ (0xde, ("dec", Mode.absx))
    ∷ (0xe0, ("cpx", Mode.imm))
    ∷ (0xe1, ("sbc", Mode.indx))
    ∷ (0xe4, ("cpx", Mode.zero))
    ∷ (0xe5, ("sbc", Mode.zero))
    ∷ (0xe6, ("inc", Mode.zero))
    ∷ (0xe8, ("inx", Mode.impld))
    ∷ (0xe9, ("sbc", Mode.imm))
    ∷ (0xea, ("nop", Mode.impld))
    ∷ (0xec, ("cpx", Mode.abs))
    ∷ (0xed, ("sbc", Mode.abs))
    ∷ (0xee, ("inc", Mode.abs))
    ∷ (0xf0, ("beq", Mode.branch))
    ∷ (0xf1, ("sbc", Mode.indy))
    ∷ (0xf5, ("sbc", Mode.zerox))
    ∷ (0xf6, ("inc", Mode.zerox))
    ∷ (0xf9, ("sbc", Mode.absy))
    ∷ (0xfd, ("sbc", Mode.absx))
    ∷ (0xfe, ("inc", Mode.absx))
    ∷ []
