-- ===== src/Ppu/Timing.antt =====
-- emu/core/ppumain.cpp: the clock of a frame, the assertions, and when the NMI is raised.
pub mod Frames
pub mod Reached
use yanesemu.Prelude.{
  ℕ, zero, suc, ◌+◌, ◌-◌, ◌*◌, ◌/◌, ◌%◌, ◌^◌, ◌<◌, ◌≤◌, ◌≡◌, ◌∙◌, refl, arith, Bool, true, false,
  not, bit, ltb, leb, ◌==◌, ◌&&◌, ◌||◌, if◌then◌else◌, Option, none, some, ◌⊎◌, inl, inr,
  Bool-cases,
}
use yanesemu.Ppu.State.{Clock, Ppu, Video, Chip, assert_that}
use yanesemu.Ppu.Fetch.{draw_on, output}
use yanesemu.Ppu.Frame

-- From `s` to `t` the clock stands still and no assertion fails.
pub record Keeps {W : Type 0} (s t : Chip W) : Type 0 where
  pub clock : t.ppu.clock ≡ s.ppu.clock
  pub failed : t.failed ≡ s.failed

-- A line on which dots are drawn.
abbrev pub IsDrawn : ℕ → Type 0
IsDrawn line = (line ≤ 239) ⊎ (line ≡ 261)

module _ {W : Type 0} where
  same : (s : Chip W) → Keeps s s
  same s = record { clock = refl; failed = refl }

  followed : {s t u : Chip W} → Keeps s t → Keeps t u → Keeps s u
  followed a b = record { clock = b.clock ∙ a.clock; failed = b.failed ∙ a.failed }

  choose : (b : Bool) {s t u : Chip W} → Keeps s t → Keeps s u → Keeps s (if b then t else u)
  choose true p q = p
  choose false p q = q

module _ {W : Type 0} ⦃video : Video W⦄ where
  draw_on-Keeps :
      (o : Option (ℕ → ℕ → ℕ → W → W)) (s : Chip W)
      → IsDrawn (s.ppu.clock.lines % 262)
      → s.ppu.clock.cycles % 341 ≤ 256
      → Keeps s (draw_on o s)
  unfolding draw_on
  draw_on-Keeps none s hy hx = same s
  draw_on-Keeps (some f) s hy hx = ground arith

  output-Keeps :
      (s : Chip W)
      → IsDrawn (s.ppu.clock.lines % 262)
      → s.ppu.clock.cycles % 341 ≤ 256
      → Keeps s (output s)
  unfolding output
  output-Keeps = draw_on-Keeps video.drawpixel

  background_cycle-Keeps : (k : ℕ) (s : Chip W) → Keeps s (Frame.background_cycle k s)
  unfolding Frame.background_cycle
  background_cycle-Keeps k s = ground arith

  output_if :
      (b : Bool) (s : Chip W)
      → IsDrawn (s.ppu.clock.lines % 262)
      → (b ≡ true → s.ppu.clock.cycles % 341 ≤ 256)
      → Keeps s (if b then output s else s)
  output_if true s hy hx = output-Keeps s hy (hx refl)
  output_if false s hy hx = same s

  tabled :
      (b : Bool) (f : Chip W → Chip W) {s : Chip W}
      → Keeps s (f s)
      → Keeps s ((if b then Frame.cycle_idle else f) s)
  unfolding Frame.cycle_idle
  tabled true f {s} k = same s
  tabled false f k = k

  draw_cycle-Keeps :
      (cycle : ℕ) (s : Chip W)
      → IsDrawn (s.ppu.clock.lines % 262)
      → s.ppu.clock.cycles % 341 ≡ cycle
      → Keeps s (Frame.draw_cycle cycle s)
  unfolding Frame.draw_cycle
  draw_cycle-Keeps cycle s hy hx =
      let drawn = output_if (leb 4 cycle && leb cycle 256) s hy (λ e. ground arith) in
      followed drawn (
        followed (background_cycle-Keeps (cycle % 8) _) (
          followed
            (choose (cycle % 8 == 1 && not (cycle == 1)) (record { clock = refl; failed = refl })
              (same _))
            (followed
              (choose (not (cycle % 8 == 1)) (record { clock = refl; failed = refl }) (same _))
              (followed
                (choose (cycle % 8 == 0 && not (cycle == 256))
                  (record { clock = refl; failed = refl }) (same _))
                (choose (cycle == 256) (record { clock = refl; failed = refl }) (same _))))))

  cycletab-Keeps :
      (cycle : ℕ) (s : Chip W)
      → IsDrawn (s.ppu.clock.lines % 262)
      → s.ppu.clock.cycles % 341 ≡ cycle
      → Keeps s (Frame.cycletab cycle s)
  unfolding Frame.cycletab Frame.ccycle
  cycletab-Keeps cycle s hy hx =
      tabled (cycle == 0 || (leb 258 cycle && leb cycle 320)) (Frame.ccycle cycle) (
        followed
          (choose ((leb 1 cycle && leb cycle 256) || (leb 321 cycle && leb cycle 340))
            (draw_cycle-Keeps cycle s hy hx) (same s))
          (choose (cycle == 257) (record { clock = refl; failed = refl }) (same _)))

-- The clock at the end of a frame.
abbrev pub frame_clock : Clock → Clock
frame_clock c = record (if c.odd_frame then record c { lines = 0; cycles = 0 } else c) {
  odd_frame = not c.odd_frame;
}

-- The clock after a step.
abbrev pub clock_after : Clock → Clock
clock_after c =
    Frame.next_dot (if c.lines % 262 == 261 && c.cycles % 341 == 340 then frame_clock c else c)

module _ {W : Type 0} ⦃video : Video W⦄ where
  vblank_end-Keeps : (s : Chip W) → Keeps s (Frame.vblank_end s)
  unfolding Frame.vblank_end
  vblank_end-Keeps s = record { clock = refl; failed = refl }

  copyvert-Keeps : (s : Chip W) → Keeps s (Frame.cycle_copyvert s)
  unfolding Frame.cycle_copyvert
  copyvert-Keeps s = record { clock = refl; failed = refl }

  prerender_lem :
      (s : Chip W)
      → s.ppu.clock.lines % 262 ≡ 261
      → let t = Frame.prerender_cycle (s.ppu.clock.cycles % 341) s in
        (t.ppu.clock
          ≡ (if s.ppu.clock.cycles % 341 == 340 then frame_clock s.ppu.clock else s.ppu.clock))
        × (t.failed ≡ s.failed)
  unfolding Frame.prerender_cycle Frame.begin_frame
  prerender_lem s hy =
      let x = s.ppu.clock.cycles % 341 in
      let s1 = Frame.cycletab x s in
      let k = followed (cycletab-Keeps x s (inr hy) refl) (
        followed (choose (x == 1) (vblank_end-Keeps s1) (same s1))
          (choose (leb 280 x && leb x 304) (copyvert-Keeps _) (same _))) in
      ground (arith, k.clock, k.failed)

  assert_fits : (x : ℕ) (s : Chip W) → x < 341 → assert_that (leb x 340) s ≡ s
  assert_fits x s h = ground arith

  vblank_begin-Keeps : (s : Chip W) → Keeps s (Frame.vblank_begin s)
  unfolding Frame.vblank_begin
  vblank_begin-Keeps s = record { clock = refl; failed = refl }

  -- A choice by line and dot among states of which one alone moves the clock.
  by_line :
      (y x : ℕ) (d : Clock) (s t1 t2 t3 : Chip W)
      → (y < 240 → Keeps s t1)
      → Keeps s t2
      → (y ≡ 261 → (t3.ppu.clock ≡ (if x == 340 then d else s.ppu.clock)) × (t3.failed ≡ s.failed))
      → let t =
          if ltb y 240
          then t1
          else if y == 241
          then (if x == 1 then t2 else s)
          else if y == 261
          then t3
          else s in
        (t.ppu.clock ≡ (if y == 261 && x == 340 then d else s.ppu.clock)) × (t.failed ≡ s.failed)
  by_line y x d s t1 t2 t3 k1 k2 k3 = elim (Bool-cases (ltb y 240)) [
    | inl e ↦ let k = k1 (ground arith) in ground (arith, k.clock, k.failed)
    | inr e ↦ ground (arith, k2.clock, k2.failed)
  ]

  line_cycle_lem :
      (x y : ℕ) (s : Chip W) (d : Clock)
      → (y < 240 → Keeps s (Frame.cycletab x s))
      → (y ≡ 261
          → ((Frame.prerender_cycle x s).ppu.clock ≡ (if x == 340 then d else s.ppu.clock))
            × ((Frame.prerender_cycle x s).failed ≡ s.failed))
      → let t = Frame.line_cycle y x s in
        (t.ppu.clock ≡ (if y == 261 && x == 340 then d else s.ppu.clock)) × (t.failed ≡ s.failed)
  unfolding Frame.line_cycle Frame.cycle_idle
  line_cycle_lem x y s d table last =
      by_line y x d s _ (Frame.vblank_begin s) _ table (vblank_begin-Keeps s) last

  lcycle_lem :
      (s : Chip W)
      → let c = s.ppu.clock in
        let t = Frame.lcycle (c.lines % 262) (c.cycles % 341) s in
        (t.ppu.clock ≡ (if c.lines % 262 == 261 && c.cycles % 341 == 340 then frame_clock c else c))
        × (t.failed ≡ s.failed)
  unfolding Frame.lcycle
  lcycle_lem s =
      let c = s.ppu.clock in
      let x = c.cycles % 341 in
      rw (assert_fits x s (omega arith)) (
        line_cycle_lem x (c.lines % 262) s (frame_clock c)
          (λ h. cycletab-Keeps x s (inl (omega arith)) refl) (prerender_lem s))

  -- A step moves the clock by one dot, with the jump at the end of an odd frame, whatever the
  -- registers hold, and no assertion on the way fails.
  pub run_clock :
      (s : Chip W)
      → ((Frame.run s).ppu.clock ≡ clock_after s.ppu.clock) × ((Frame.run s).failed ≡ s.failed)
  unfolding Frame.run
  run_clock s = let e = lcycle_lem s in (rw e.0 refl, e.1)
