-- ===== src/Cpu/State.antt =====
-- emu/core/cpu.hpp: the registers, the interrupt signals, and what the CPU reaches through its bus
-- pointer and its debugging callback. `rammem` belongs to the world behind the bus, since the CPU
-- reaches it only through the closures that `attach_bus` maps.
use yanesemu.Prelude.{ℕ, Bool, false, Option}
use yanesemu.Instr.Status.{ProcStatus, cleared}

pub record Regs : Type 0 where
  pub pc : ℕ
  pub acc : ℕ
  pub x : ℕ
  pub y : ℕ
  pub sp : ℕ
  pub flags : ProcStatus
  pub cycles : ℕ

pub record Cpu : Type 0 where
  pub r : Regs
  pub open r use {pc, acc, x, y, sp, flags, cycles}
  pub nmipending : Bool
  pub irqpending : Bool
  pub resetpending : Bool
  pub execnmi : Bool
  pub execirq : Bool
  pub opargs : ℕ

-- The default member initialisers.
abbrev pub initial_regs : Regs
initial_regs = record { pc = 0; acc = 0; x = 0; y = 0; sp = 0; flags = cleared; cycles = 0 }

abbrev pub initial : Cpu
initial = record {
  r = initial_regs;
  nmipending = false;
  irqpending = false;
  resetpending = false;
  execnmi = false;
  execirq = false;
  opargs = 0;
}

-- `CPU::Status`; `id` and `op` are the members of its `instr`.
pub record Status : Type 0 where
  pub regs : Regs
  pub id : ℕ
  pub op : ℕ

-- What the CPU is attached to: a bus on a world `W`, and the callback that may be registered. It
-- gets the status, an address and the kind of access, one of 'x', 'r' and 'w'.
pub record Env (W : Type 0) : Type 0 where
  pub read : ℕ → W → ℕ × W
  pub write : ℕ → ℕ → W → W
  pub fetch_callback : Option (Status → ℕ → ℕ → W → W)

pub record Machine (W : Type 0) : Type 0 where
  pub cpu : Cpu
  pub world : W
