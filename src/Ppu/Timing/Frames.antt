-- ===== src/Ppu/Timing/Frames.antt =====
-- emu/core/ppumain.cpp: the invariant of the clock over all frames, and the distance to the NMI.
use yanesemu.Prelude.{
  ℕ, zero, suc, ◌+◌, ◌-◌, ◌/◌, ◌%◌, ◌<◌, ◌≡◌, ◌≢◌, ap, refl, arith, Bool, true, false, bit, ltb,
  leb, ◌==◌, ◌&&◌, if◌then◌else◌,
}
use yanesemu.Ppu.State.{Clock, Video, Chip, assert_that}
use yanesemu.Ppu.Frame
use yanesemu.Ppu.Timing.{clock_after, run_clock}

-- The dots of two frames are counted through: an odd frame comes after an even one.
pub record InFrame (c : Clock) : Type 0 where
  pub lines : c.lines ≡ c.cycles / 341
  pub cycles : c.cycles < 178684
  pub odd_frame : c.odd_frame ≡ leb 89342 c.cycles

clock_after-InFrame : (c : Clock) → InFrame c → InFrame (clock_after c)
clock_after-InFrame c h = record {
  lines = ground (arith, h.lines, h.cycles, h.odd_frame);
  cycles = ground (arith, h.lines, h.cycles, h.odd_frame);
  odd_frame = ground (arith, h.lines, h.cycles, h.odd_frame);
}

-- The dots to go to the first dot of line 241 after the top one, which is the second of that line.
unfoldable pub distance : Clock → ℕ
distance c =
    let p = c.cycles % 89342 in
    if leb p 82182 then 82182 - p else 89342 - p + 82182 - bit c.odd_frame

pub distance_step :
    (c : Clock) → InFrame c → distance c ≢ 0 → suc (distance (clock_after c)) ≡ distance c
unfolding distance
distance_step c h far = ground (arith, h.lines, h.cycles, h.odd_frame)

pub distance_zero :
    (c : Clock) → InFrame c → distance c ≡ 0 → (c.lines % 262 ≡ 241) × (c.cycles % 341 ≡ 1)
unfolding distance
distance_zero c h here = ground (arith, h.lines, h.cycles, h.odd_frame)

-- The dot on which the vertical blank begins.
abbrev pub at_vblank : Clock → Bool
at_vblank c = c.lines % 262 == 241 && c.cycles % 341 == 1

not_yet : (c : Clock) → InFrame c → distance c ≢ 0 → at_vblank c ≡ false
unfolding distance
not_yet c h far = ground (arith, h.lines, h.cycles, h.odd_frame)

module _ {W : Type 0} ⦃video : Video W⦄ where
  unfoldable pub runs : ℕ → Chip W → Chip W
  runs zero s = s
  runs (suc n) s = runs n (Frame.run s)

  pub run_steps : (s : Chip W) → InFrame s.ppu.clock → InFrame (Frame.run s).ppu.clock
  run_steps s h = rw (run_clock s).0 (clock_after-InFrame s.ppu.clock h)

  arrives :
      (n : ℕ) (s : Chip W)
      → InFrame s.ppu.clock
      → distance s.ppu.clock ≡ n
      → at_vblank (runs n s).ppu.clock ≡ true
  unfolding runs
  arrives zero s h e = ground (arith, distance_zero s.ppu.clock h e)
  arrives (suc n) s h e =
      arrives n (Frame.run s) (run_steps s h)
        (rw (run_clock s).0 (omega (arith, distance_step s.ppu.clock h (λ z. omega arith))))

  waits :
      (m : ℕ) (s : Chip W)
      → InFrame s.ppu.clock
      → m < distance s.ppu.clock
      → at_vblank (runs m s).ppu.clock ≡ false
  unfolding runs
  waits zero s h below = not_yet s.ppu.clock h (λ z. omega arith)
  waits (suc m) s h below =
      waits m (Frame.run s) (run_steps s h)
        (rw (run_clock s).0 (omega (arith, distance_step s.ppu.clock h (λ z. omega arith))))

  -- From any position in a frame the PPU comes to the dot on which the vertical blank begins after
  -- less than 89342 steps, after exactly `distance` steps and not before.
  pub runs_reach_vblank :
      (s : Chip W)
      → InFrame s.ppu.clock
      → let n = distance s.ppu.clock in
        (n < 89342)
        × (at_vblank (runs n s).ppu.clock ≡ true)
        × ((m : ℕ) → m < n → at_vblank (runs m s).ppu.clock ≡ false)
  unfolding distance
  runs_reach_vblank s h =
      (ground (arith, h.odd_frame, h.cycles), arrives _ s h refl, λ m. waits m s h)

  -- On the dot on which the vertical blank begins, a step calls the callback of the NMI on the
  -- world, whether or not the NMI is enabled, sets the flag of the vertical blank and leaves the
  -- memories.
  pub run_vblank :
      (s : Chip W)
      → at_vblank s.ppu.clock ≡ true
      → let t = Frame.run s in
        (t.world ≡ video.nmi_callback s.world) × (t.ppu.io.vblank ≡ true) × (t.mem ≡ s.mem)
  unfolding Frame.run Frame.lcycle Frame.line_cycle Frame.vblank_begin
  run_vblank s here =
      let y : s.ppu.clock.lines % 262 ≡ 241 = ground arith in
      let x : s.ppu.clock.cycles % 341 ≡ 1 = ground arith in rw (y, x) (refl, refl, refl)

period_step :
    (c : Clock)
    → InFrame c
    → at_vblank c ≡ true
    → distance (clock_after c) ≡ 89341 - bit c.odd_frame
unfolding distance
period_step c h here = ground (arith, h.lines, h.cycles, h.odd_frame)

module _ {W : Type 0} ⦃video : Video W⦄ where
  -- From one NMI to the next there are 89342 steps in an even frame and 89341 in an odd one, which
  -- drops a dot at its end.
  pub frame_period :
      (s : Chip W)
      → InFrame s.ppu.clock
      → at_vblank s.ppu.clock ≡ true
      → let n = 89341 - bit s.ppu.clock.odd_frame in
        (at_vblank (runs n (Frame.run s)).ppu.clock ≡ true)
        × ((m : ℕ) → m < n → at_vblank (runs m (Frame.run s)).ppu.clock ≡ false)
  frame_period s h here =
      let after = run_steps s h in
      let far : distance (Frame.run s).ppu.clock ≡ 89341 - bit s.ppu.clock.odd_frame =
        rw (run_clock s).0 (period_step s.ppu.clock h here) in
      (arrives _ (Frame.run s) after far, λ m below. waits m (Frame.run s) after (rw far below))

module _ {W : Type 0} (video : Video W) (callback : W → W) where
  abbrev pub rewired : Video W
  rewired = record video { nmi_callback = callback }

  cycletab_silent :
      (x : ℕ) (s : Chip W)
      → Frame.cycletab ⦃video = video⦄ x s ≡ Frame.cycletab ⦃video = rewired⦄ x s
  unfolding Frame.cycletab
  cycletab_silent x s = refl

  prerender_silent :
      (x : ℕ) (s : Chip W)
      → Frame.prerender_cycle ⦃video = video⦄ x s ≡ Frame.prerender_cycle ⦃video = rewired⦄ x s
  unfolding Frame.prerender_cycle
  prerender_silent x s = refl

  -- Choices by line and dot that differ on the dot of the vertical blank alone.
  same_elsewhere :
      (y x : ℕ) (s t1 t2 t2' t3 : Chip W)
      → (y == 241 && x == 1) ≡ false
      → (if ltb y 240
          then t1
          else if y == 241
          then (if x == 1 then t2 else s)
          else if y == 261
          then t3
          else s)
        ≡ (if ltb y 240
            then t1
            else if y == 241
            then (if x == 1 then t2' else s)
            else if y == 261
            then t3
            else s)
  same_elsewhere y x s t1 t2 t2' t3 away = ground arith

  line_silent :
      (y x : ℕ) (s : Chip W)
      → (y == 241 && x == 1) ≡ false
      → Frame.line_cycle ⦃video = video⦄ y x s ≡ Frame.line_cycle ⦃video = rewired⦄ y x s
  unfolding Frame.line_cycle Frame.cycle_idle
  line_silent y x s away =
      same_elsewhere y x s (Frame.cycletab ⦃video = video⦄ x s)
        (Frame.vblank_begin ⦃video = video⦄ s) (Frame.vblank_begin ⦃video = rewired⦄ s)
        (Frame.prerender_cycle ⦃video = video⦄ x s) away

  -- On a dot on which the vertical blank does not begin, a step does not call the callback of the
  -- NMI: it does the same with any other one.
  pub run_silent :
      (s : Chip W)
      → at_vblank s.ppu.clock ≡ false
      → Frame.run ⦃video = video⦄ s ≡ Frame.run ⦃video = rewired⦄ s
  unfolding Frame.run Frame.lcycle Frame.line_cycle
  run_silent s away =
      ap (λ (t : Chip W). record t { ppu = record t.ppu { clock = Frame.next_dot t.ppu.clock } })
        (line_silent (s.ppu.clock.lines % 262) (s.ppu.clock.cycles % 341)
          (assert_that (leb (s.ppu.clock.cycles % 341) 340) s) away)
