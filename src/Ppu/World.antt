-- ===== src/Ppu/World.antt =====
-- emu/core/ppumain.cpp: what the bus, the canvas and the callback keep of the world, a step keeps.
use yanesemu.Prelude.{
  ℕ, zero, suc, ◌%◌, ◌≡◌, ◌∙◌, ap, refl, arith, Bool, true, false, not, leb, ltb, ◌==◌, ◌&&◌, ◌||◌,
  if◌then◌else◌, Option, none, some,
}
use yanesemu.Ppu.State.{Memories, Video, Chip, assert_that}
use yanesemu.Ppu.Fetch.{draw_on, output}
use yanesemu.Ppu.Frame
use yanesemu.Ppu.Timing.Frames.{at_vblank, run_silent, rewired, runs}

-- A view of the world that neither the reads of the bus nor the canvas change.
pub record KeepsView {W V : Type 0} (video : Video W) (view : W → V) : Type 0 where
  pub read : (a : ℕ) (m : Memories) (w : W) → view (video.read a m w).1 ≡ view w
  pub drawpixel :
      (f : ℕ → ℕ → ℕ → W → W)
      → video.drawpixel ≡ some f
      → (x y c : ℕ) (w : W) → view (f x y c w) ≡ view w

-- From `s` to `t` the view is the same.
record Same {W V : Type 0} (view : W → V) (s t : Chip W) : Type 0 where
  same : view t.world ≡ view s.world

module _ {W V : Type 0} {view : W → V} where
  choose :
      (b : Bool) {s t u : Chip W} → Same view s t → Same view s u → Same view s (if b then t else u)
  choose true p q = p
  choose false p q = q

  followed : {s t u : Chip W} → Same view s t → Same view t u → Same view s u
  followed p q = record { same = q.same ∙ p.same }

module _ {W V : Type 0} ⦃video : Video W⦄ (view : W → V) (k : KeepsView video view) where
  unchanged : (s : Chip W) → Same view s s
  unchanged s = record { same = refl }

  draw_on-view :
      (o : Option (ℕ → ℕ → ℕ → W → W)) (s : Chip W)
      → video.drawpixel ≡ o
      → Same view s (draw_on o s)
  unfolding draw_on
  draw_on-view none s e = unchanged s
  draw_on-view (some f) s e = record { same = grind (arith, k.read, k.drawpixel f e) }

  background_cycle-view : (c : ℕ) (s : Chip W) → Same view s (Frame.background_cycle c s)
  unfolding Frame.background_cycle
  background_cycle-view c s = record { same = grind (arith, k.read) }

  draw_cycle-view : (cycle : ℕ) (s : Chip W) → Same view s (Frame.draw_cycle cycle s)
  unfolding Frame.draw_cycle output
  draw_cycle-view cycle s =
      followed
        (choose (leb 4 cycle && leb cycle 256) (draw_on-view video.drawpixel s refl) (unchanged s))
        (followed (background_cycle-view (cycle % 8) _) (
          followed
            (choose (cycle % 8 == 1 && not (cycle == 1)) (record { same = refl }) (unchanged _))
            (followed (choose (not (cycle % 8 == 1)) (record { same = refl }) (unchanged _)) (
              followed
                (choose (cycle % 8 == 0 && not (cycle == 256)) (record { same = refl })
                  (unchanged _))
                (choose (cycle == 256) (record { same = refl }) (unchanged _))))))

  tabled :
      (b : Bool) (f : Chip W → Chip W) {s : Chip W}
      → Same view s (f s)
      → Same view s ((if b then Frame.cycle_idle else f) s)
  unfolding Frame.cycle_idle
  tabled true f {s} p = unchanged s
  tabled false f p = p

  cycletab-view : (cycle : ℕ) (s : Chip W) → Same view s (Frame.cycletab cycle s)
  unfolding Frame.cycletab Frame.ccycle
  cycletab-view cycle s =
      tabled (cycle == 0 || (leb 258 cycle && leb cycle 320)) (Frame.ccycle cycle) (
        followed
          (choose ((leb 1 cycle && leb cycle 256) || (leb 321 cycle && leb cycle 340))
            (draw_cycle-view cycle s) (unchanged s))
          (choose (cycle == 257) (record { same = refl }) (unchanged _)))

  begin_frame-view : (s : Chip W) → Same view s (Frame.begin_frame s)
  unfolding Frame.begin_frame
  begin_frame-view s = record { same = ground arith }

  prerender_cycle-view : (cycle : ℕ) (s : Chip W) → Same view s (Frame.prerender_cycle cycle s)
  unfolding Frame.prerender_cycle Frame.vblank_end Frame.cycle_copyvert
  prerender_cycle-view cycle s = followed (cycletab-view cycle s) (
      followed (choose (cycle == 1) (record { same = refl }) (unchanged _)) (
        followed (choose (leb 280 cycle && leb cycle 304) (record { same = refl }) (unchanged _))
          (choose (cycle == 340) (begin_frame-view _) (unchanged _))))

  asserted : (b : Bool) (s : Chip W) → Same view s (assert_that b s)
  asserted b s = record { same = ground arith }

  -- A step keeps a view that the callback of the NMI does not change either.
  pub run-view :
      (s : Chip W)
      → ((w : W) → view (video.nmi_callback w) ≡ view w)
      → view (Frame.run s).world ≡ view s.world
  unfolding Frame.run Frame.lcycle Frame.line_cycle Frame.vblank_begin Frame.cycle_idle
  run-view s c =
      let y = s.ppu.clock.lines % 262 in
      let x = s.ppu.clock.cycles % 341 in
      (followed (asserted (leb x 340) s) (
        choose (ltb y 240) (cycletab-view x _) (
          choose (y == 241) (choose (x == 1) (record { same = c _ }) (unchanged _))
            (choose (y == 261) (prerender_cycle-view x _) (unchanged _))))).same

-- On a dot on which the vertical blank does not begin, a step keeps every view that the bus and the
-- canvas keep, whatever the callback of the NMI would do.
pub run_quiet-view :
    {W V : Type 0} (video : Video W) (view : W → V)
    → KeepsView video view
    → (s : Chip W) → at_vblank s.ppu.clock ≡ false
    → view (Frame.run ⦃video = video⦄ s).world ≡ view s.world
run_quiet-view video view k s away =
    let silent = rewired video (λ w. w) in
    ap (λ (t : Chip _). view t.world) (run_silent video (λ w. w) s away)
    ∙ run-view ⦃video = silent⦄ view (record { read = k.read; drawpixel = k.drawpixel }) s
        (λ w. refl)

pub runs-view :
    {W V : Type 0} (video : Video W) (view : W → V)
    → KeepsView video view
    → ((w : W) → view (video.nmi_callback w) ≡ view w)
    → (n : ℕ) (s : Chip W) → view (runs ⦃video = video⦄ n s).world ≡ view s.world
unfolding runs
runs-view video view k c zero s = refl
runs-view video view k c (suc n) s =
    runs-view video view k c n (Frame.run ⦃video = video⦄ s) ∙ run-view ⦃video = video⦄ view k s c
