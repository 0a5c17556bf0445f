-- ===== src/Cpu/Memory.antt =====
-- emu/core/bus.hpp, as the CPU sees it: a bus whose reads have no effects.
use yanesemu.Prelude.{ℕ, ◌<◌, none}
use yanesemu.Cpu.State.{Env}

-- A bus whose reads have no effects, with no callback registered.
pub record Memory (W : Type 0) : Type 0 where
  pub peek : W → ℕ → ℕ
  pub poke : ℕ → ℕ → W → W
  pub bytes : (w : W) (a : ℕ) → peek w a < 256

abbrev pub env_of : {W : Type 0} → Memory W → Env W
env_of m = record { read = λ a w. (m.peek w a, w); write = m.poke; fetch_callback = none }
