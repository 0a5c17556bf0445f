-- ===== src/Cpu/Interrupt.antt =====
-- emu/core/cpu.cpp: the interrupt sequence and power-up, on a bus whose reads have no effects.
use yanesemu.Prelude.{
  ℕ, zero, suc, ◌+◌, ◌*◌, ◌/◌, ◌%◌, ◌≡◌, refl, arith, true, false, if◌then◌else◌,
}
use yanesemu.Instr.Status.{cleared, to_byte}
use yanesemu.Cpu.State.{Cpu, Env, Machine}
use yanesemu.Cpu.Exec.{◌>>=◌}
use yanesemu.Cpu.Access.{bus_write}
use yanesemu.Cpu.Control.{interrupt, nmi_vec, reset_vec, irq_brk_vec}
use yanesemu.Cpu.Execute.{clear_range, power_up, power}
use yanesemu.Cpu.Words.{IsSized}
use yanesemu.Cpu.Memory.{Memory, env_of}

-- The vector of the signal of the highest rank: reset, then NMI, then IRQ and BRK.
abbrev pub vector_of : Cpu → ℕ
vector_of c = if c.resetpending then reset_vec else if c.nmipending then nmi_vec else irq_brk_vec

-- `t` has the word at `vec` for its program counter.
abbrev pub EntersAt : {W : Type 0} → Memory W → ℕ → Machine W → Type 0
EntersAt m vec t = t.cpu.pc ≡ m.peek t.world vec + 256 * m.peek t.world (vec + 1)

-- The memory with the program counter and the flags on the stack, whose pointer wraps around.
abbrev pub pushed : {W : Type 0} → Memory W → Machine W → W
pushed m s =
    let sp = s.cpu.sp in
    m.poke (0x100 + (sp + 254) % 256) (to_byte s.cpu.flags) (
      m.poke (0x100 + (sp + 255) % 256) (s.cpu.pc % 256)
        (m.poke (0x100 + sp) (s.cpu.pc / 256) s.world))

module _ {W : Type 0} (m : Memory W) (s : Machine W) (h : IsSized s) where
  -- The interrupt sequence enters at the vector of the highest signal that is pending, clears that
  -- signal and no other, writes the high and the low byte of the program counter and the flags to the
  -- stack, in this order, disables interrupts and clears the break flag.
  pub interrupt_lem :
      let t = (interrupt ⦃env = env_of m⦄ s).1 in
      EntersAt m (vector_of s.cpu) t
      × (t.world ≡ pushed m s)
      × (t.cpu.sp ≡ (s.cpu.sp + 253) % 256)
      × (t.cpu.flags ≡ record s.cpu.flags { breakf = false; intdis = true })
      × (t.cpu.resetpending ≡ false)
      × (t.cpu.nmipending ≡ (if s.cpu.resetpending then s.cpu.nmipending else false))
      × (t.cpu.irqpending ≡ (
          if s.cpu.resetpending
          then s.cpu.irqpending
          else if s.cpu.nmipending
          then s.cpu.irqpending
          else false))
  unfolding interrupt
  interrupt_lem = ground (
    arith,
    m.bytes (interrupt ⦃env = env_of m⦄ s).1.world (vector_of s.cpu),
    m.bytes (interrupt ⦃env = env_of m⦄ s).1.world (vector_of s.cpu + 1),
  )

module _ {W : Type 0} ⦃env : Env W⦄ where
  -- The clearing loops touch the world alone.
  cpu-clear_range : (n a : ℕ) (s : Machine W) → (clear_range n a s).1.cpu ≡ s.cpu
  unfolding clear_range bus_write ◌>>=◌
  cpu-clear_range zero a s = refl
  cpu-clear_range (suc n) a s = cpu-clear_range n (a + 1) _

  pub cpu-power_up :
      (s : Machine W)
      → (power_up s).1.cpu ≡ record s.cpu {
        r = record s.cpu.r { acc = 0; x = 0; y = 0; sp = 0; flags = cleared };
        resetpending = true;
      }
  unfolding power_up bus_write ◌>>=◌
  cpu-power_up s = simp cpu-clear_range

-- What power-up leaves in the registers.
abbrev pub IsPowered : {W : Type 0} → Memory W → Cpu → Machine W → Type 0
IsPowered m before t =
    EntersAt m reset_vec t
    × (t.cpu.acc ≡ 0)
    × (t.cpu.x ≡ 0)
    × (t.cpu.y ≡ 0)
    × (t.cpu.sp ≡ 0xfd)
    × (t.cpu.flags ≡ record cleared { intdis = true })
    × (t.cpu.resetpending ≡ false)
    × (t.cpu.nmipending ≡ before.nmipending)
    × (t.cpu.irqpending ≡ before.irqpending)

-- Power-up clears the registers, starts at the reset vector with the stack pointer at $FD and
-- interrupts disabled, and takes no other signal.
pub power_lem :
    {W : Type 0} (m : Memory W) (s : Machine W)
    → IsSized s
    → IsPowered m s.cpu (power ⦃env = env_of m⦄ s).1
unfolding power ◌>>=◌ interrupt
power_lem m s h = ground (
  arith,
  cpu-power_up ⦃env = env_of m⦄ s,
  m.bytes (power ⦃env = env_of m⦄ s).1.world reset_vec,
  m.bytes (power ⦃env = env_of m⦄ s).1.world (reset_vec + 1),
)
