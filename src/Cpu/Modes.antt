-- ===== src/Cpu/Modes.antt =====
-- emu/core/instructions.cpp: the addressing mode functions. Each gets the instruction function, or
-- the value to store, as the source's functions do. The value of an `int` sum that is passed as an
-- address is reduced to `uint16` where it can exceed it.
mod Operands
mod Read
mod Modify
mod Write
pub use Operands.{InstrFuncRead, InstrFuncMod, store_low, store_high}
unfoldable pub use Operands.{fetch_low, fetch_high, get_opargs, call_read, call_modify, cross}
unfoldable pub use Read.{
  addrmode_imm_read, addrmode_zero_read, addrmode_zerox_read, addrmode_zeroy_read,
  addrmode_abs_read, addrmode_absx_read, addrmode_absy_read, addrmode_indx_read, addrmode_indy_read,
}
unfoldable pub use Modify.{
  addrmode_accum_modify, addrmode_zero_modify, addrmode_zerox_modify, addrmode_abs_modify,
  addrmode_absx_modify,
}
unfoldable pub use Write.{
  addrmode_zero_write, addrmode_zerox_write, addrmode_zeroy_write, addrmode_abs_write,
  addrmode_absx_write, addrmode_absy_write, addrmode_indx_write, addrmode_indy_write,
}
