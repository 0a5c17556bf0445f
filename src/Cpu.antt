-- ===== src/Cpu.antt =====
-- emu/core/cpu.hpp, cpu.cpp and instructions.cpp: the 6502.
pub mod State
pub mod Exec
pub mod Access
pub mod Alu
pub mod Modes
pub mod Control
pub mod Dispatch
pub mod Execute
pub mod Timing
pub mod Words
pub mod World
pub mod Steps
pub mod Memory
pub mod Agreement
pub mod Next
pub mod Stack
pub mod Interrupt
mod Examples
