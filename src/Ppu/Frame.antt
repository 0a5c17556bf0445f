-- ===== src/Ppu/Frame.antt =====
-- emu/core/ppumain.cpp: which work falls on which dot of a frame. The template arguments of the
-- source are arguments here; `cycletab` and `linetab` hold an instance for each index.
use yanesemu.Prelude.{
  ℕ, ◌+◌, ◌%◌, ◌^◌, true, false, not, bit, ltb, leb, ◌==◌, ◌&&◌, ◌||◌, if◌then◌else◌,
}
use yanesemu.Ppu.State.{Clock, Video, Chip, set_ppu, set_io, set_vram, assert_that}
use yanesemu.Ppu.Address.{inc_v_horzpos, inc_v_vertpos, copy_v_horzpos, copy_v_vertpos}
use yanesemu.Ppu.Fetch.{
  fetch_nt, fetch_attr, fetch_lowbg, fetch_highbg, shift_run, shift_fill, output,
}

module _ {W : Type 0} where
  unfoldable pub cycle_idle : Chip W → Chip W
  cycle_idle s = s

  unfoldable pub cycle_incvhorz : Chip W → Chip W
  unfolding inc_v_horzpos
  cycle_incvhorz s = set_ppu (set_vram (inc_v_horzpos s.ppu.vram s.ppu.io.bg_show) s.ppu) s

  unfoldable pub cycle_incvvert : Chip W → Chip W
  unfolding inc_v_vertpos
  cycle_incvvert s = set_ppu (set_vram (inc_v_vertpos s.ppu.vram s.ppu.io.bg_show) s.ppu) s

  unfoldable pub cycle_copyhorz : Chip W → Chip W
  unfolding copy_v_horzpos
  cycle_copyhorz s = set_ppu (set_vram (copy_v_horzpos s.ppu.vram s.ppu.io.bg_show) s.ppu) s

  unfoldable pub cycle_copyvert : Chip W → Chip W
  unfolding copy_v_vertpos
  cycle_copyvert s = set_ppu (set_vram (copy_v_vertpos s.ppu.vram s.ppu.io.bg_show) s.ppu) s

  unfoldable pub cycle_shift : Chip W → Chip W
  unfolding shift_run
  cycle_shift s = set_ppu (record s.ppu { shift = shift_run s.ppu.shift }) s

  unfoldable pub vblank_end : Chip W → Chip W
  vblank_end s =
      set_ppu
        (set_io (record s.ppu.io { vblank = false; sp_zero_hit = false; sp_overflow = false })
          s.ppu)
        s

  -- The assertion holds the position to the last dot of the last line.
  unfoldable pub begin_frame : Chip W → Chip W
  begin_frame s =
      let c = s.ppu.clock in
      let t = assert_that (c.lines % 262 == 261 && c.cycles % 341 == 340) s in
      let d = if c.odd_frame then record c { lines = 0; cycles = 0 } else c in
      set_ppu (record t.ppu { clock = record d { odd_frame = not c.odd_frame } }) t

-- `cycles++; lines += (cycles % 341 == 0);`
abbrev pub next_dot : Clock → Clock
next_dot c =
    let n = (c.cycles + 1) % 2 ^ 64 in
    record c { cycles = n; lines = (c.lines + bit (n % 341 == 0)) % 2 ^ 64 }

module _ {W : Type 0} ⦃video : Video W⦄ where
  unfoldable pub cycle_fillshifts : Chip W → Chip W
  unfolding shift_fill
  cycle_fillshifts s = set_ppu (shift_fill video.shift_back s.ppu) s

  unfoldable pub vblank_begin : Chip W → Chip W
  vblank_begin s =
      let t = set_ppu (set_io (record s.ppu.io { vblank = true }) s.ppu) s in
      record t { world = video.nmi_callback t.world }

  unfoldable pub background_cycle : ℕ → Chip W → Chip W
  unfolding fetch_nt fetch_attr fetch_lowbg fetch_highbg
  background_cycle cycle s =
      if cycle == 1
      then fetch_nt false s
      else if cycle == 2
      then fetch_nt true s
      else if cycle == 3
      then fetch_attr false s
      else if cycle == 4
      then fetch_attr true s
      else if cycle == 5
      then fetch_lowbg false s
      else if cycle == 6
      then fetch_lowbg true s
      else if cycle == 7
      then fetch_highbg false s
      else if cycle == 0
      then fetch_highbg true s
      else s

  -- The body of the first condition of `ccycle`.
  unfoldable pub draw_cycle : ℕ → Chip W → Chip W
  unfolding output background_cycle cycle_fillshifts cycle_shift cycle_incvhorz cycle_incvvert
  draw_cycle cycle s =
      let s1 = if leb 4 cycle && leb cycle 256 then output s else s in
      let s2 = background_cycle (cycle % 8) s1 in
      let s3 = if cycle % 8 == 1 && not (cycle == 1) then cycle_fillshifts s2 else s2 in
      let s4 = if not (cycle % 8 == 1) then cycle_shift s3 else s3 in
      let s5 = if cycle % 8 == 0 && not (cycle == 256) then cycle_incvhorz s4 else s4 in
      if cycle == 256 then cycle_incvvert s5 else s5

  unfoldable pub ccycle : ℕ → Chip W → Chip W
  unfolding draw_cycle cycle_copyhorz
  ccycle cycle s =
      let t =
        if (leb 1 cycle && leb cycle 256) || (leb 321 cycle && leb cycle 340)
        then draw_cycle cycle s
        else s in
      if cycle == 257 then cycle_copyhorz t else t

  -- The entry of the table at an index: IDLE at 0 and from 258 to 320, CCYCLE elsewhere.
  unfoldable pub cycletab : ℕ → Chip W → Chip W
  unfolding ccycle cycle_idle
  cycletab cycle =
      if cycle == 0 || (leb 258 cycle && leb cycle 320) then cycle_idle else ccycle cycle

  -- `lcycle` on the line 261.
  unfoldable pub prerender_cycle : ℕ → Chip W → Chip W
  unfolding cycletab vblank_end cycle_copyvert begin_frame
  prerender_cycle cycle s =
      let s1 = cycletab cycle s in
      let s2 = if cycle == 1 then vblank_end s1 else s1 in
      let s3 = if leb 280 cycle && leb cycle 304 then cycle_copyvert s2 else s2 in
      if cycle == 340 then begin_frame s3 else s3

  -- `lcycle` after its assertion.
  unfoldable pub line_cycle : ℕ → ℕ → Chip W → Chip W
  unfolding cycletab vblank_begin cycle_idle prerender_cycle
  line_cycle line cycle s =
      if ltb line 240
      then cycletab cycle s
      else if line == 241
      then (if cycle == 1 then vblank_begin s else cycle_idle s)
      else if line == 261
      then prerender_cycle cycle s
      else cycle_idle s

  unfoldable pub lcycle : ℕ → ℕ → Chip W → Chip W
  unfolding line_cycle
  lcycle line cycle s = line_cycle line cycle (assert_that (leb cycle 340) s)

  unfoldable pub run : Chip W → Chip W
  unfolding lcycle
  run s =
      let t = lcycle (s.ppu.clock.lines % 262) (s.ppu.clock.cycles % 341) s in
      set_ppu (record t.ppu { clock = next_dot t.ppu.clock }) t
