-- ===== src/Cpu/Timing/Documented.antt =====
-- emu/core/instructions.cpp: the numbers of cycles that its comments give.
use yanesemu.Prelude.{ℕ}
use yanesemu.Cpu.Dispatch.{ReadMode, ModifyMode, WriteMode, Implied, Entry}

abbrev pub read_cycles : ReadMode → ℕ
read_cycles ReadMode.imm = 2
read_cycles ReadMode.zero = 3
read_cycles ReadMode.zerox = 4
read_cycles ReadMode.zeroy = 4
read_cycles ReadMode.abs = 4
read_cycles ReadMode.absx = 4
read_cycles ReadMode.absy = 4
read_cycles ReadMode.indx = 6
read_cycles ReadMode.indy = 5

abbrev pub modify_cycles : ModifyMode → ℕ
modify_cycles ModifyMode.accum = 2
modify_cycles ModifyMode.zero = 5
modify_cycles ModifyMode.zerox = 6
modify_cycles ModifyMode.abs = 6
modify_cycles ModifyMode.absx = 7

abbrev pub write_cycles : WriteMode → ℕ
write_cycles WriteMode.zero = 3
write_cycles WriteMode.zerox = 4
write_cycles WriteMode.zeroy = 4
write_cycles WriteMode.abs = 4
write_cycles WriteMode.absx = 5
write_cycles WriteMode.absy = 5
write_cycles WriteMode.indx = 6
write_cycles WriteMode.indy = 6

abbrev pub implied_cycles : Implied → ℕ
implied_cycles Implied.brk = 7
implied_cycles Implied.php = 3
implied_cycles Implied.plp = 4
implied_cycles Implied.pha = 3
implied_cycles Implied.pla = 4
implied_cycles Implied.jsr = 6
implied_cycles Implied.jmp = 3
implied_cycles Implied.jmp_ind = 5
implied_cycles Implied.rts = 6
implied_cycles Implied.rti = 6
implied_cycles Implied.inx = 2
implied_cycles Implied.iny = 2
implied_cycles Implied.dex = 2
implied_cycles Implied.dey = 2
implied_cycles Implied.nop = 2

-- The documented cycles of a case, its fetch included.
abbrev pub documented : Entry → ℕ
documented (Entry.impld i) = implied_cycles i
documented (Entry.read op mode) = read_cycles mode
documented (Entry.modify op mode) = modify_cycles mode
documented (Entry.write mode reg) = write_cycles mode
documented (Entry.branch f v) = 2
documented (Entry.flag f v) = 2
documented (Entry.transfer from to) = 2

-- The documented extra cycles: "+1" for a page crossed, "+1+1" for a branch.
abbrev pub extra : Entry → ℕ
extra (Entry.read op ReadMode.absx) = 1
extra (Entry.read op ReadMode.absy) = 1
extra (Entry.read op ReadMode.indy) = 1
extra (Entry.branch f v) = 2
extra e = 0
