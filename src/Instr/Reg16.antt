-- ===== src/Instr/Reg16.antt =====
-- emu/core/instrinfo.hpp: `Reg16`, a 16-bit register with access to its two bytes. A register is
-- its member `full`; `low` and `high` are its bytes as a little-endian machine lays them out.
use yanesemu.Prelude.{ℕ, ◌+◌, ◌*◌, ◌/◌, ◌%◌, ◌^◌}

abbrev pub low : ℕ → ℕ
low full = full % 2 ^ 8

abbrev pub high : ℕ → ℕ
high full = full / 2 ^ 8

abbrev pub set_low : ℕ → ℕ → ℕ
set_low full v = full / 2 ^ 8 * 2 ^ 8 + v

abbrev pub set_high : ℕ → ℕ → ℕ
set_high full v = v * 2 ^ 8 + full % 2 ^ 8
