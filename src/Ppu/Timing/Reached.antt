-- ===== src/Ppu/Timing/Reached.antt =====
-- emu/core/ppu.hpp: the states that the public members of `PPU` lead to, in any order of calls.
use yanesemu.Prelude.{ℕ, ◌≡◌, refl, ◌∙◌, arith, false}
use yanesemu.Ppu.State.{Video, Chip}
use yanesemu.Ppu.Power.{power, reset, clear_clock}
use yanesemu.Ppu.Registers.{readreg, writereg}
use yanesemu.Ppu.Frame
use yanesemu.Ppu.Timing.{Keeps, run_clock}
use yanesemu.Ppu.Timing.Frames.{InFrame, run_steps}

clear_clock-InFrame : InFrame clear_clock
clear_clock-InFrame = record { lines = refl; cycles = omega arith; odd_frame = refl }

module _ {W : Type 0} ⦃video : Video W⦄ where
  -- `power` comes first; after it `reset`, `run` and the accesses of the registers.
  pub data Reached : Chip W → Type 0 where
    powered : (s : Chip W) → s.failed ≡ false → Reached (power s)
    reset_from : {s : Chip W} → Reached s → Reached (reset s)
    run_from : {s : Chip W} → Reached s → Reached (Frame.run s)
    read_from : {s : Chip W} (which : ℕ) → Reached s → Reached (readreg which s).1
    write_from :
        {s : Chip W} (which data_byte : ℕ) → Reached s → Reached (writereg which data_byte s)

  readreg-Keeps : (which : ℕ) (s : Chip W) → Keeps s (readreg which s).1
  unfolding readreg
  readreg-Keeps which s = ground arith

  writereg-Keeps : (which v : ℕ) (s : Chip W) → Keeps s (writereg which v s)
  unfolding writereg
  writereg-Keeps which v s = ground arith

  kept :
      {s t : Chip W}
      → Keeps s t
      → InFrame s.ppu.clock × (s.failed ≡ false)
      → InFrame t.ppu.clock × (t.failed ≡ false)
  kept k h = (rw k.clock h.0, k.failed ∙ h.1)

  -- In every state that power-up, resets, steps and register accesses lead to, in any order, the
  -- line and the parity of the frame are those of the dot counter, the counter stays within two
  -- frames, and no assertion has failed.
  pub Reached-InFrame : (s : Chip W) → Reached s → InFrame s.ppu.clock × (s.failed ≡ false)
  unfolding power reset
  Reached-InFrame _ (Reached.powered s h) = (clear_clock-InFrame, h)
  Reached-InFrame _ (Reached.reset_from {s} r) = (clear_clock-InFrame, (Reached-InFrame s r).1)
  Reached-InFrame _ (Reached.run_from {s} r) =
      let h = Reached-InFrame s r in (run_steps s h.0, (run_clock s).1 ∙ h.1)
  Reached-InFrame _ (Reached.read_from {s} which r) =
      kept (readreg-Keeps which s) (Reached-InFrame s r)
  Reached-InFrame _ (Reached.write_from {s} which v r) =
      kept (writereg-Keeps which v s) (Reached-InFrame s r)
