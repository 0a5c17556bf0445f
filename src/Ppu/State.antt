-- ===== src/Ppu/State.antt =====
-- emu/core/ppu.hpp: the members of `PPU`, and what it reaches through its bus, its canvas and its
-- callback. The closures that `attach_bus` and `set_mirroring` map on the bus reach the three
-- memories of the PPU and what else is attached to the bus, and no other member.
use yanesemu.Prelude.{ℕ, Bool, true, Option, if◌then◌else◌}

pub record Io : Type 0 where
  pub latch : ℕ
  pub vram_inc : Bool
  pub sp_pt_addr : Bool
  pub bg_pt_addr : Bool
  pub sp_size : Bool
  pub ext_bus_dir : Bool
  pub nmi_enabled : Bool
  pub grey : Bool
  pub bg_show_left : Bool
  pub sp_show_left : Bool
  pub bg_show : Bool
  pub sp_show : Bool
  pub red : Bool
  pub green : Bool
  pub blue : Bool
  pub sp_overflow : Bool
  pub sp_zero_hit : Bool
  pub vblank : Bool
  pub oam_addr : ℕ
  pub scroll_latch : Bool
  pub data_buf : ℕ

-- `addr` and `tmp` are the members `value` of their unions.
pub record Vram : Type 0 where
  pub addr : ℕ
  pub tmp : ℕ
  pub fine_x : ℕ

pub record Tile : Type 0 where
  pub nt : ℕ
  pub attr : ℕ
  pub low : ℕ
  pub high : ℕ

pub record Shift : Type 0 where
  pub tlow : ℕ
  pub thigh : ℕ
  pub alow : ℕ
  pub ahigh : ℕ
  pub feed_low : Bool
  pub feed_high : Bool

-- `cycles`, `lines` and `odd_frame`.
pub record Clock : Type 0 where
  pub cycles : ℕ
  pub lines : ℕ
  pub odd_frame : Bool

pub record Ppu : Type 0 where
  pub io : Io
  pub vram : Vram
  pub tile : Tile
  pub shift : Shift
  pub clock : Clock

-- The arrays `vrammem`, `oammem` and `palmem`, by index.
pub record Memories : Type 0 where
  pub vrammem : ℕ → ℕ
  pub oammem : ℕ → ℕ
  pub palmem : ℕ → ℕ

-- What the PPU is attached to, on a world `W`: its bus, the canvas if there is one, and the
-- callback of the NMI. `shift_back n` is what `0b11 << -n` gives, which C++ leaves undefined.
pub record Video (W : Type 0) : Type 0 where
  pub read : ℕ → Memories → W → ℕ × W
  pub write : ℕ → ℕ → Memories → W → Memories × W
  pub drawpixel : Option (ℕ → ℕ → ℕ → W → W)
  pub nmi_callback : W → W
  pub shift_back : ℕ → ℕ

-- `failed` tells that an assertion did not hold. The model goes on where the program aborts.
pub record Chip (W : Type 0) : Type 0 where
  pub ppu : Ppu
  pub mem : Memories
  pub world : W
  pub failed : Bool

abbrev pub set_io : Io → Ppu → Ppu
set_io io p = record p { io = io }

abbrev pub set_vram : Vram → Ppu → Ppu
set_vram v p = record p { vram = v }

module _ {W : Type 0} where
  abbrev pub set_ppu : Ppu → Chip W → Chip W
  set_ppu p s = record s { ppu = p }

  abbrev pub assert_that : Bool → Chip W → Chip W
  assert_that c s = if c then s else record s { failed = true }

module _ {W : Type 0} ⦃video : Video W⦄ where
  -- `bus->read` and `bus->write`
  unfoldable pub read_bus : ℕ → Chip W → ℕ × Chip W
  read_bus a s = let (v, w) = video.read a s.mem s.world in (v, record s { world = w })

  unfoldable pub write_bus : ℕ → ℕ → Chip W → Chip W
  write_bus a v s = let (m, w) = video.write a v s.mem s.world in record s { mem = m; world = w }
