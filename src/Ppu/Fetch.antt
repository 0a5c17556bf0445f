-- ===== src/Ppu/Fetch.antt =====
-- emu/core/ppu.cpp: the fetches of a tile, the shift registers and the output of a dot.
use yanesemu.Prelude.{
  ℕ, ◌+◌, ◌*◌, ◌/◌, ◌%◌, ◌^◌, bit_and, bit_or, Bool, true, false, to_bool, bit, leb, ◌==◌, ◌&&◌,
  ◌||◌, if◌then◌else◌, Option, none, some,
}
use yanesemu.Util.Bits.{setbits, setbit}
use yanesemu.Ppu.State.{Tile, Shift, Ppu, Video, Chip, read_bus, set_ppu, assert_that}
use yanesemu.Ppu.Address.{coarse_x, coarse_y, fine_y, nt_bits}

abbrev pub set_tile : Tile → Ppu → Ppu
set_tile t p = record p { tile = t }

unfoldable pub nt_addr : Ppu → ℕ
nt_addr p = bit_or 0x2000 (bit_and p.vram.addr 0x0fff)

unfoldable pub attr_addr : Ppu → ℕ
unfolding nt_bits coarse_x coarse_y
attr_addr p =
    bit_or
      (bit_or (bit_or 0x23c0 (nt_bits p.vram.addr * 2 ^ 10))
        (bit_and (coarse_y p.vram.addr) 0x1c * 2 ^ 1))
      (bit_and (coarse_x p.vram.addr) 0x1c / 2 ^ 2)
    % 2 ^ 16

unfoldable pub lowbg_addr : Ppu → ℕ
unfolding fine_y
lowbg_addr p =
    bit_or (bit_or (bit p.io.bg_pt_addr * 2 ^ 12) (p.tile.nt * 2 ^ 4)) (fine_y p.vram.addr) % 2 ^ 16

unfoldable pub highbg_addr : Ppu → ℕ
unfolding fine_y
highbg_addr p =
    bit_or (bit_or (bit_or (bit p.io.bg_pt_addr * 2 ^ 12) (p.tile.nt * 2 ^ 4)) (1 * 2 ^ 3))
      (fine_y p.vram.addr)
    % 2 ^ 16

module _ {W : Type 0} ⦃video : Video W⦄ where
  unfoldable pub fetch_nt : Bool → Chip W → Chip W
  unfolding nt_addr read_bus
  fetch_nt false s = s
  fetch_nt true s =
      let (v, t) = read_bus (nt_addr s.ppu) s in
      set_ppu (set_tile (record t.ppu.tile { nt = v }) t.ppu) t

  unfoldable pub fetch_attr : Bool → Chip W → Chip W
  unfolding attr_addr read_bus
  fetch_attr false s = s
  fetch_attr true s =
      let (v, t) = read_bus (attr_addr s.ppu) s in
      set_ppu (set_tile (record t.ppu.tile { attr = v }) t.ppu) t

  unfoldable pub fetch_lowbg : Bool → Chip W → Chip W
  unfolding lowbg_addr read_bus
  fetch_lowbg false s = s
  fetch_lowbg true s =
      let (v, t) = read_bus (lowbg_addr s.ppu) s in
      set_ppu (set_tile (record t.ppu.tile { low = v }) t.ppu) t

  unfoldable pub fetch_highbg : Bool → Chip W → Chip W
  unfolding highbg_addr read_bus
  fetch_highbg false s = s
  fetch_highbg true s =
      let (v, t) = read_bus (highbg_addr s.ppu) s in
      set_ppu (set_tile (record t.ppu.tile { high = v }) t.ppu) t

-- The last two statements both assign `shift.ahigh`; what the first of them assigns is lost.
unfoldable pub shift_run : Shift → Shift
unfolding setbit
shift_run sh =
    let alow = sh.alow / 2 in
    record sh {
      tlow = sh.tlow / 2;
      thigh = sh.thigh / 2;
      alow = alow;
      ahigh = setbit alow 7 sh.feed_low % 2 ^ 8;
    }

-- The shift count of `attr_mask` is `(~bit)*2`, which is -2 or -4.
unfoldable pub shift_fill : (ℕ → ℕ) → Ppu → Ppu
unfolding setbits
shift_fill shift_back p =
    let v = p.vram.addr in
    let chosen = bit_or (bit_and (v / 2 ^ 1) 1) (bit_and (v / 2 ^ 6) 1) in
    let attr_mask = shift_back ((chosen + 1) * 2) % 2 ^ 8 in
    record p {
      shift = record p.shift {
        tlow = setbits p.shift.tlow 8 8 p.tile.low % 2 ^ 16;
        thigh = setbits p.shift.thigh 8 8 p.tile.high % 2 ^ 16;
        feed_high = to_bool (bit_and p.tile.attr attr_mask);
        feed_low = to_bool (bit_and p.tile.attr attr_mask);
      };
    }

module _ {W : Type 0} ⦃video : Video W⦄ where
  unfoldable pub getcolor : Bool → ℕ → ℕ → Chip W → ℕ × Chip W
  unfolding read_bus
  getcolor select pal palind s =
      let n = bit_or (bit_or (bit select * 2 ^ 4) (pal * 2 ^ 2)) palind % 2 ^ 8 in
      read_bus (0x3f00 + n) s

  unfoldable pub bg_output : Chip W → ℕ × Chip W
  unfolding getcolor
  bg_output s =
      let sh = s.ppu.shift in
      let mask = 2 ^ s.ppu.vram.fine_x % 2 ^ 8 in
      let lowbit = to_bool (bit_and sh.tlow mask) in
      let hibit = to_bool (bit_and sh.thigh mask) in
      let at1 = to_bool (bit_and sh.ahigh mask) in
      let at2 = to_bool (bit_and sh.alow mask) in
      let pal = bit_or (bit at1 * 2) (bit at2) in
      let palind = bit_or (bit hibit * 2) (bit lowbit) in getcolor false pal palind s

  -- The rest of `output`, with a canvas.
  unfoldable pub draw : (ℕ → ℕ → ℕ → W → W) → Chip W → Chip W
  unfolding bg_output
  draw drawpixel s =
      let (bgpixel, t) = bg_output s in
      let color = if bgpixel == 0x30 then 0xffffffff else 0 in
      let x = t.ppu.clock.cycles % 341 in
      let y = t.ppu.clock.lines % 262 in
      let u = assert_that ((leb y 239 || y == 261) && leb x 256) t in
      if x == 256
      then u
      else if y == 261
      then u
      else record u { world = drawpixel x y color u.world }

  -- `output`, with the canvas or without.
  unfoldable pub draw_on : Option (ℕ → ℕ → ℕ → W → W) → Chip W → Chip W
  unfolding draw
  draw_on none s = s
  draw_on (some drawpixel) s = draw drawpixel s

  unfoldable pub output : Chip W → Chip W
  unfolding draw_on
  output = draw_on video.drawpixel
