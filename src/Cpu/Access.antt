-- ===== src/Cpu/Access.antt =====
-- emu/core/cpu.cpp: cycles, fetches, memory accesses, the stack and the polling of interrupts.
use yanesemu.Prelude.{ℕ, ◌+◌, ◌%◌, ◌^◌, true, not, ◌&&◌}
use yanesemu.Prelude.{none, some, if◌then◌else◌}
use yanesemu.Instr.Reg16
use yanesemu.Cpu.State.{Cpu, Status, Env}
use yanesemu.Cpu.Exec.{Exec, pure, gets, modify, ◌>>=◌, ◌>>◌}

abbrev pub stack_base : ℕ
stack_base = 0x0100

abbrev pub set_pc : ℕ → Cpu → Cpu
set_pc v c = record c { r = record c.r { pc = v } }

abbrev pub set_sp : ℕ → Cpu → Cpu
set_sp v c = record c { r = record c.r { sp = v } }

-- `r.cycles` is an `unsigned long` of 64 bits.
abbrev tick : Cpu → Cpu
tick c = record c { r = record c.r { cycles = (c.cycles + 1) % 2 ^ 64 } }

-- `execirq` and `execnmi` once a poll has seen its signal.
abbrev poll_irq : Cpu → Cpu
poll_irq c = record c {
  execirq = if not c.execirq && not c.flags.intdis && c.irqpending then true else c.execirq;
}

abbrev poll_nmi : Cpu → Cpu
poll_nmi c = record c { execnmi = if not c.execnmi && c.nmipending then true else c.execnmi }

module _ {W : Type 0} ⦃env : Env W⦄ where
  unfoldable pub cycle : Exec W (Unit {0})
  unfolding ◌>>=◌
  cycle = modify tick

  -- `bus->read` and `bus->write`
  unfoldable pub bus_read : ℕ → Exec W ℕ
  bus_read addr s = let (v, w) = env.read addr s.world in (v, record s { world = w })

  unfoldable pub bus_write : ℕ → ℕ → Exec W (Unit {0})
  bus_write addr v s = (tt, record s { world = env.write addr v s.world })

  -- The three reads go through the bus, and may have effects there.
  unfoldable pub status : Exec W Status
  unfolding ◌>>=◌ bus_read
  status = do
    r ← gets (λ c. c.r)
    id ← bus_read r.pc
    low ← bus_read ((r.pc + 1) % 2 ^ 16)
    high ← bus_read ((r.pc + 2) % 2 ^ 16)
    pure (record { regs = r; id = id; op = Reg16.set_high (Reg16.set_low 0 low) high })

  -- `if (fetch_callback) fetch_callback(status(), addr, mode);`. The callback works on the world
  -- that the reads of `status` leave.
  unfoldable pub notify : ℕ → ℕ → Exec W (Unit {0})
  unfolding status
  notify addr mode s =
      let (st, t) = status s in
      (
        tt,
        record s {
          world = elim env.fetch_callback [ none ↦ s.world | some f ↦ f st addr mode t.world ];
        },
      )

  -- The operand of `bus->read(r.pc.full++)`.
  unfoldable pub next_pc : Exec W ℕ
  unfolding ◌>>=◌
  next_pc = do pc ← gets (λ c. c.pc); modify (set_pc ((pc + 1) % 2 ^ 16)); pure pc

  unfoldable pub fetch : Exec W ℕ
  unfolding ◌>>=◌ cycle bus_read notify next_pc
  fetch = do pc ← gets (λ c. c.pc); notify pc b'x'; cycle; at ← next_pc; bus_read at

  unfoldable pub fetchop : Exec W ℕ
  unfolding ◌>>=◌ cycle bus_read next_pc
  fetchop = do cycle; at ← next_pc; bus_read at

  unfoldable pub readmem : ℕ → Exec W ℕ
  unfolding ◌>>=◌ cycle bus_read notify
  readmem addr = do notify addr b'r'; cycle; bus_read addr

  unfoldable pub writemem : ℕ → ℕ → Exec W (Unit {0})
  unfolding ◌>>=◌ cycle bus_write notify
  writemem addr v = do notify addr b'w'; cycle; bus_write addr v

  unfoldable pub push : ℕ → Exec W (Unit {0})
  unfolding ◌>>=◌ writemem
  push val = do
    sp ← gets (λ c. c.sp)
    writemem (sp + stack_base) val
    modify (λ c. set_sp ((c.sp + 255) % 2 ^ 8) c)

  unfoldable pub pull : Exec W ℕ
  unfolding ◌>>=◌ readmem
  pull = do
    modify (λ c. set_sp ((c.sp + 1) % 2 ^ 8) c)
    sp ← gets (λ c. c.sp)
    readmem (sp + stack_base)

  unfoldable pub irqpoll : Exec W (Unit {0})
  unfolding ◌>>=◌
  irqpoll = modify poll_irq

  unfoldable pub nmipoll : Exec W (Unit {0})
  unfolding ◌>>=◌
  nmipoll = modify poll_nmi

  unfoldable pub last_cycle : Exec W (Unit {0})
  unfolding ◌>>=◌ irqpoll nmipoll
  last_cycle = do nmipoll; irqpoll
