-- ===== src/Ppu/Fires.antt =====
-- emu/core/ppumain.cpp: over many steps, a flag that the callback of the NMI sets is set exactly from
-- the dot on which the vertical blank begins.
use yanesemu.Prelude.{
  ℕ, zero, suc, ◌+◌, ◌<◌, ◌≤◌, ◌≡◌, ◌≢◌, ◌∙◌, ap, arith, Bool, true, ◌==◌, Bool-cases, ==_iff, inl,
  inr,
}
use yanesemu.Ppu.State.{Video, Chip}
use yanesemu.Ppu.Frame
use yanesemu.Ppu.Timing.{run_clock}
use yanesemu.Ppu.Timing.Frames.{
  InFrame, distance, distance_step, distance_zero, at_vblank, run_steps, run_vblank, runs,
}
use yanesemu.Ppu.World.{KeepsView, run_quiet-view}

module _ {W : Type 0} ⦃video : Video W⦄ (flag : W → Bool) (k : KeepsView video flag)
    (sets : (w : W) → flag (video.nmi_callback w) ≡ true) where
  run_sets : (s : Chip W) → at_vblank s.ppu.clock ≡ true → flag (Frame.run s).world ≡ true
  run_sets s here = ap flag (run_vblank s here).0 ∙ sets s.world

  stays : (s : Chip W) → flag s.world ≡ true → flag (Frame.run s).world ≡ true
  stays s set = elim (Bool-cases (at_vblank s.ppu.clock)) [
    | inl here ↦ run_sets s here
    | inr away ↦ run_quiet-view video flag k s away ∙ set
  ]

  pub runs_stay : (n : ℕ) (s : Chip W) → flag s.world ≡ true → flag (runs n s).world ≡ true
  unfolding runs
  runs_stay zero s set = set
  runs_stay (suc n) s set = runs_stay n (Frame.run s) (stays s set)

  arrived :
      (s : Chip W) → InFrame s.ppu.clock → distance s.ppu.clock ≡ 0 → at_vblank s.ppu.clock ≡ true
  arrived s h e = ground (arith, distance_zero s.ppu.clock h e)

  closer :
      (s : Chip W)
      → InFrame s.ppu.clock
      → distance s.ppu.clock ≢ 0
      → suc (distance (Frame.run s).ppu.clock) ≡ distance s.ppu.clock
  closer s h far = rw (run_clock s).0 (distance_step s.ppu.clock h far)

  -- After more steps than there are to the dot on which the vertical blank begins, the flag is set.
  pub runs_fire :
      (n : ℕ) (s : Chip W)
      → InFrame s.ppu.clock
      → distance s.ppu.clock < n
      → flag (runs n s).world ≡ true
  unfolding runs
  runs_fire zero s h past = absurd (omega arith)
  runs_fire (suc n) s h past = elim (Bool-cases (distance s.ppu.clock == 0)) [
    | inl zero_left ↦
        runs_stay n (Frame.run s) (run_sets s (arrived s h ((==_iff _ _).0 zero_left)))
    | inr more ↦
        let step = closer s h (λ e. ground arith) in
        runs_fire n (Frame.run s) (run_steps s h) (omega arith)
  ]

  -- After at most as many steps, the distance has become less by as many.
  pub runs_closer :
      (n : ℕ) (s : Chip W)
      → InFrame s.ppu.clock
      → n ≤ distance s.ppu.clock
      → distance (runs n s).ppu.clock + n ≡ distance s.ppu.clock
  unfolding runs
  runs_closer zero s h fits = omega arith
  runs_closer (suc n) s h fits =
      let step = closer s h (λ e. omega arith) in
      let rest = runs_closer n (Frame.run s) (run_steps s h) (omega arith) in omega arith

  pub runs-InFrame : (n : ℕ) (s : Chip W) → InFrame s.ppu.clock → InFrame (runs n s).ppu.clock
  unfolding runs
  runs-InFrame zero s h = h
  runs-InFrame (suc n) s h = runs-InFrame n (Frame.run s) (run_steps s h)
