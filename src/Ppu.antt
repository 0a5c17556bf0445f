-- ===== src/Ppu.antt =====
-- emu/core/ppu.hpp, ppu.cpp and ppumain.cpp: the picture processing unit.
pub mod State
pub mod Address
pub mod Power
pub mod Registers
pub mod Fetch
pub mod Frame
pub mod Timing
pub mod World
pub mod Fires
mod Examples
