-- ===== src/Instr.antt =====
-- emu/core/instrinfo.hpp and instrinfo.cpp: the processor status, the addressing modes of the
-- opcodes, and what the debugger asks of an instruction.
pub mod Reg16
pub mod Status
pub mod Table
pub mod Decode
pub mod Block
