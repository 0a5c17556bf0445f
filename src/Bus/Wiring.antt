-- ===== src/Bus/Wiring.antt =====
-- emu/core/cpu.cpp, ppu.cpp and cartridge.cpp: `attach_bus` of each device, in the order in which
-- emu/core/emulator.hpp and emulator.cpp call them.
use yanesemu.Prelude.{ℕ, ◌+◌, ◌%◌, ◌<◌, ◌≡◌, ◌≢◌, arith, bit_and, ltb, if◌then◌else◌, none, some}
use yanesemu.Prelude.Bits.{bit_and_mask}
use yanesemu.Bus as B
use yanesemu.Ppu.Address.{Mirroring, decode}
use yanesemu.Bus.{Bus, Reader, Writer}

-- What the closures of the devices do on a world `W`. Reads of the RAM and of the program ROM do not
-- change it.
pub record Devices (W : Type 0) : Type 0 where
  pub rammem : ℕ → W → ℕ
  pub set_rammem : ℕ → ℕ → W → W
  pub readreg : ℕ → W → ℕ × W
  pub writereg : ℕ → ℕ → W → W
  pub read_prgrom : ℕ → W → ℕ
  pub read_chrrom : ℕ → W → ℕ
  pub vrammem : ℕ → W → ℕ
  pub set_vrammem : ℕ → ℕ → W → W
  pub palmem : ℕ → W → ℕ
  pub set_palmem : ℕ → ℕ → W → W

module _ {W : Type 0} (dev : Devices W) where
  abbrev pub returning : ℕ → Reader W
  returning v a w = (v, w)

  abbrev pub ignoring : Writer W
  ignoring a v w = w

  -- `CPU::attach_bus`; the reads of the APU give 0 and its writes do nothing.
  unfoldable pub attach_cpu : Bus W → Bus W
  unfolding B.map
  attach_cpu b = B.map 0x4000 0x4020 (returning 0) ignoring (
      B.map 0 0x2000 (λ a w. (dev.rammem (bit_and a 0x7ff) w, w))
        (λ a v w. dev.set_rammem (bit_and a 0x7ff) v w) b)

  -- `PPU::attach_bus`: its part on the bus of the CPU.
  unfoldable pub attach_ppu : Bus W → Bus W
  unfolding B.map
  attach_ppu b =
      B.map 0x2000 0x4000 (λ a w. dev.readreg (0x2000 + bit_and a 0x7) w)
        (λ a v w. dev.writereg (0x2000 + bit_and a 0x7) v w) b

  -- The same: its part on its own bus. The assertions on the masked index hold.
  unfoldable pub attach_ppu_vram : Bus W → Bus W
  unfolding B.map
  attach_ppu_vram b = B.map 0x2000 0x3f00 (returning 0) ignoring (
      B.map 0x3f00 0x4000 (λ a w. (dev.palmem (bit_and a 0x1f) w, w))
        (λ a v w. dev.set_palmem (bit_and a 0x1f) v w) b)

  -- `Cartridge::attach_bus` on either bus.
  unfoldable pub attach_cartridge : Bus W → Bus W
  unfolding B.map
  attach_cartridge b =
      B.map 0x8000 0x10000 (λ a w. (dev.read_prgrom a w, w)) ignoring
        (B.map 0x4020 0x8000 (returning 0) ignoring b)

  unfoldable pub attach_cartridge_vram : Bus W → Bus W
  unfolding B.map
  attach_cartridge_vram b = B.map 0 0x2000 (λ a w. (dev.read_chrrom a w, w)) ignoring b

  -- The bus of the CPU in a program that has inserted a cartridge; `b` is a new bus.
  unfoldable pub rambus : Bus W → Bus W
  unfolding attach_cpu attach_ppu attach_cartridge
  rambus b = attach_cartridge (attach_ppu (attach_cpu b))

  -- `PPU::set_mirroring`. For another mirroring than the two its assertion fails, and the bus stays.
  unfoldable pub set_mirroring : Mirroring → Bus W → Bus W
  unfolding B.remap decode
  set_mirroring m b =
      B.remap 0x2000 0x3f00
        (λ a w. elim (decode m a) [ none ↦ (0, w) | some i ↦ (dev.vrammem i w, w) ])
        (λ a v w. elim (decode m a) [ none ↦ w | some i ↦ dev.set_vrammem i v w ]) b

  -- The bus of the PPU. `insert_rom` sets the mirroring before the cartridge attaches itself.
  unfoldable pub vrambus : Mirroring → Bus W → Bus W
  unfolding attach_ppu_vram set_mirroring attach_cartridge_vram
  vrambus m b = attach_cartridge_vram (set_mirroring m (attach_ppu_vram b))

  module _ (fresh : ℕ → ℕ) (old : Bus W) (a : ℕ) (w : W) where
    -- On the wired bus of the CPU the first 8 KiB are the 2 KiB of RAM, four times; up to $4000 the
    -- eight registers of the PPU repeat; from $8000 the program ROM answers and cannot be written;
    -- what lies between reads as 0 and ignores writes. It does not matter what stood in the table
    -- of the bus before.
    pub rambus_lem :
        (v : ℕ)
        → a < 0x10000
        → let b = rambus (B.reset 0x10000 fresh old) in
          (B.read b a w ≡ (
            if ltb a 0x2000
            then (dev.rammem (a % 2048) w, w)
            else if ltb a 0x4000
            then dev.readreg (0x2000 + a % 8) w
            else if ltb a 0x8000
            then (0, w)
            else (dev.read_prgrom a w, w)))
          × (B.write b a v w ≡ (
              if ltb a 0x2000
              then dev.set_rammem (a % 2048) v w
              else if ltb a 0x4000
              then dev.writereg (0x2000 + a % 8) v w
              else w))
    unfolding B.reset B.read B.write rambus B.map
    rambus_lem v h = let low11 = bit_and_mask 11 a in let low3 = bit_and_mask 3 a in ground arith

    -- On the wired bus of the PPU the pattern tables are the ROM, the nametables are the video memory
    -- through the mirroring, and the palette repeats every 32 bytes, for reads and for writes; a write to
    -- the ROM does nothing. This needs that the number that stood uninitialised in the table at $1FFF is
    -- not 1, the number of the nametables.
    pub vrambus_lem :
        (v : ℕ) (m : Mirroring) (i : ℕ)
        → a < 0x4000
        → fresh 0x1fff ≢ 1
        → decode m a ≡ some i
        → let b = vrambus m (B.reset 0x4000 fresh old) in
          (B.read b a w ≡ (
            if ltb a 0x2000
            then (dev.read_chrrom a w, w)
            else if ltb a 0x3f00
            then (dev.vrammem i w, w)
            else (dev.palmem (a % 32) w, w)))
          × (B.write b a v w ≡ (
              if ltb a 0x2000
              then w
              else if ltb a 0x3f00
              then dev.set_vrammem i v w
              else dev.set_palmem (a % 32) v w))
    unfolding B.reset B.read B.write vrambus B.map B.remap
    vrambus_lem v m i h clean cell = let low5 = bit_and_mask 5 a in ground arith
