-- ===== src/Emulator/Start.antt =====
-- emu/core/emulator.hpp: `power` and `reset` leave the emulator in a state in which frames can run.
use yanesemu.Prelude.{◌+◌, ◌%◌, ◌^◌, ◌≡◌, refl, ap, arith, false}
use yanesemu.Cpu.State.{Cpu, Env, Machine}
use yanesemu.Cpu.Exec.{◌>>=◌}
use yanesemu.Cpu.Access.{bus_write}
use yanesemu.Cpu.Execute as Execute
use yanesemu.Cpu.Interrupt.{cpu-power_up}
use yanesemu.Cpu.Timing.Control as Timing
use yanesemu.Cpu.Timing.Control.{Spends}
use yanesemu.Ppu.Power as Power
use yanesemu.Emulator as E
use yanesemu.Emulator.{Board, Emulator, Setup}
use yanesemu.Emulator.Invariant.{HasBuses}
use yanesemu.Emulator.Catchup.{Behind}
use yanesemu.Emulator.Progress.{Running}

module _ {W : Type 0} ⦃env : Env W⦄ (s : Machine W) where
  power-Spends : Spends 6 s (Execute.power s).1
  unfolding Execute.power ◌>>=◌
  power-Spends = omega (
    arith,
    Timing.interrupt-Spends (Execute.power_up s).1,
    ap (λ (c : Cpu). c.cycles) (cpu-power_up s),
  )

  reset-Spends : Spends 6 s (Execute.reset s).1
  unfolding Execute.reset ◌>>=◌ bus_write
  reset-Spends = Timing.interrupt-Spends _

-- A frame begins, six cycles of the CPU late.
pub record Started {V : Type 0} (t : Emulator V) : Type 0 where
  pub running : Running t
  pub first_line : t.board.ppu.clock.lines ≡ 0
  pub first_dot : t.board.ppu.clock.cycles ≡ 0
  pub even_frame : t.board.ppu.clock.odd_frame ≡ false
  pub behind : Behind 6 t

module _ {V : Type 0} (setup : Setup V) (s : Emulator V) where
  abbrev cpu_of : Machine (Board V)
  cpu_of = record { cpu = s.board.world.cpu; world = s.board }

  started :
      (t : Emulator V)
      → HasBuses t
      → t.board.ppu.clock ≡ Power.clear_clock
      → t.cycle ≡ s.cycle
      → t.board.world.cpu.cycles % 2 ^ 64 ≡ (s.board.world.cpu.cycles + 6) % 2 ^ 64
      → Behind 0 s
      → Started t
  started t buses clock same cycles h =
      let late : Behind 6 t = record {
        fits = omega (arith, same, h.fits);
        cycles = omega (arith, same, cycles, h.cycles);
      } in
      record {
        running = record {
          buses = buses;
          in_frame = rw clock (record { lines = refl; cycles = omega arith; odd_frame = refl });
          late = 6;
          late_bound = omega arith;
          behind = late;
        };
        first_line = rw clock refl;
        first_dot = rw clock refl;
        even_frame = rw clock refl;
        behind = late;
      }

  -- After `power` and after `reset` of an emulator that was not behind, wherever its PPU stood, frames
  -- can run; the PPU stands at the first dot of the first line of an even frame, and it is behind the
  -- CPU by exactly the six cycles of the interrupt.
  pub power-Running :
      HasBuses s → Behind 0 s → Started (E.power setup s) × Started (E.reset setup s)
  unfolding E.power E.reset Power.power Power.reset
  power-Running buses h = (
    started (E.power setup s) (same_buses (E.power setup s).board) refl refl
        (power-Spends ⦃env = E.env setup s⦄ cpu_of) h,
    started (E.reset setup s) (same_buses (E.reset setup s).board) refl refl
        (reset-Spends ⦃env = E.env setup s⦄ cpu_of) h,
  )
    where
      same_buses : (b : Board V) → HasBuses (record s { board = b })
      same_buses b = record {
        vram_nmi = buses.vram_nmi;
        vram_cycles = buses.vram_cycles;
        ram_clock = buses.ram_clock;
        ram_nmi = buses.ram_nmi;
      }
