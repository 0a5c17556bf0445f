-- ===== src/Emulator/Wired.antt =====
-- emu/core/emulator.hpp: what the closures on the two buses keep of the emulator.
use yanesemu.Prelude.{ℕ, ◌≡◌, refl, arith, Option, none, some}
use yanesemu.Ppu.State.{Video, Memories, Chip}
use yanesemu.Ppu.Address.{Mirroring, decode}
use yanesemu.Ppu.Registers as Registers
use yanesemu.Bus.{Bus}
use yanesemu.Bus.Keeps.{Keeps, map-Keeps, remap-Keeps}
use yanesemu.Bus.Wiring as Wiring
use yanesemu.Bus.Wiring.{Devices}

-- The devices on a bus keep a view of the world.
pub record DevicesKeep {W X : Type 0} (view : W → X) (dev : Devices W) : Type 0 where
  pub set_rammem : (a v : ℕ) (w : W) → view (dev.set_rammem a v w) ≡ view w
  pub readreg : (a : ℕ) (w : W) → view (dev.readreg a w).1 ≡ view w
  pub writereg : (a v : ℕ) (w : W) → view (dev.writereg a v w) ≡ view w
  pub set_vrammem : (a v : ℕ) (w : W) → view (dev.set_vrammem a v w) ≡ view w
  pub set_palmem : (a v : ℕ) (w : W) → view (dev.set_palmem a v w) ≡ view w

module _ {W X : Type 0} (view : W → X) (dev : Devices W) (k : DevicesKeep view dev) where
  pub attach_cpu-Keeps : (b : Bus W) → Keeps view b → Keeps view (Wiring.attach_cpu dev b)
  unfolding Wiring.attach_cpu
  attach_cpu-Keeps b h =
      map-Keeps view _ _ (λ a w. refl) (λ a v w. refl) _ _ _
        (map-Keeps view _ _ (λ a w. refl) (λ a v w. k.set_rammem _ v w) _ _ b h)

  pub attach_ppu-Keeps : (b : Bus W) → Keeps view b → Keeps view (Wiring.attach_ppu dev b)
  unfolding Wiring.attach_ppu
  attach_ppu-Keeps b h =
      map-Keeps view _ _ (λ a w. k.readreg _ w) (λ a v w. k.writereg _ v w) _ _ b h

  pub attach_ppu_vram-Keeps : (b : Bus W) → Keeps view b → Keeps view (Wiring.attach_ppu_vram dev b)
  unfolding Wiring.attach_ppu_vram
  attach_ppu_vram-Keeps b h =
      map-Keeps view _ _ (λ a w. refl) (λ a v w. refl) _ _ _
        (map-Keeps view _ _ (λ a w. refl) (λ a v w. k.set_palmem _ v w) _ _ b h)

  pub attach_cartridge-Keeps :
      (b : Bus W) → Keeps view b → Keeps view (Wiring.attach_cartridge dev b)
  unfolding Wiring.attach_cartridge
  attach_cartridge-Keeps b h =
      map-Keeps view _ _ (λ a w. refl) (λ a v w. refl) _ _ _
        (map-Keeps view _ _ (λ a w. refl) (λ a v w. refl) _ _ b h)

  pub attach_cartridge_vram-Keeps :
      (b : Bus W) → Keeps view b → Keeps view (Wiring.attach_cartridge_vram dev b)
  unfolding Wiring.attach_cartridge_vram
  attach_cartridge_vram-Keeps b h = map-Keeps view _ _ (λ a w. refl) (λ a v w. refl) _ _ b h

  decoded_read :
      (o : Option ℕ) (w : W)
      → let r : ℕ × W = elim o [ none ↦ (0, w) | some i ↦ (dev.vrammem i w, w) ] in
        view r.1 ≡ view w
  decoded_read none w = refl
  decoded_read (some i) w = refl

  decoded_write :
      (o : Option ℕ) (v : ℕ) (w : W)
      → view (elim o [ none ↦ w | some i ↦ dev.set_vrammem i v w ]) ≡ view w
  decoded_write none v w = refl
  decoded_write (some i) v w = k.set_vrammem i v w

  pub set_mirroring-Keeps :
      (m : Mirroring) (b : Bus W) → Keeps view b → Keeps view (Wiring.set_mirroring dev m b)
  unfolding Wiring.set_mirroring
  set_mirroring-Keeps m b h =
      remap-Keeps view (λ a w. elim (decode m a) [ none ↦ (0, w) | some i ↦ (dev.vrammem i w, w) ])
        (λ a v w. elim (decode m a) [ none ↦ w | some i ↦ dev.set_vrammem i v w ])
        (λ a w. decoded_read (decode m a) w) (λ a v w. decoded_write (decode m a) v w) 0x2000 0x3f00
        b h

-- The registers of the PPU keep its clock, and of the world what its bus keeps.
module _ {W : Type 0} ⦃video : Video W⦄ where
  pub readreg-clock : (a : ℕ) (s : Chip W) → (Registers.readreg a s).1.ppu.clock ≡ s.ppu.clock
  unfolding Registers.readreg
  readreg-clock a s = ground arith

  pub writereg-clock : (a v : ℕ) (s : Chip W) → (Registers.writereg a v s).ppu.clock ≡ s.ppu.clock
  unfolding Registers.writereg
  writereg-clock a v s = ground arith

module _ {W X : Type 0} ⦃video : Video W⦄ (view : W → X)
    (r : (a : ℕ) (m : Memories) (w : W) → view (video.read a m w).1 ≡ view w)
    (q : (a v : ℕ) (m : Memories) (w : W) → view (video.write a v m w).1 ≡ view w) where
  pub readreg-view : (a : ℕ) (s : Chip W) → view (Registers.readreg a s).1.world ≡ view s.world
  unfolding Registers.readreg
  readreg-view a s = grind (arith, r)

  pub writereg-view : (a v : ℕ) (s : Chip W) → view (Registers.writereg a v s).world ≡ view s.world
  unfolding Registers.writereg
  writereg-view a v s = grind (arith, q)
