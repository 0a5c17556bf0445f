-- ===== src/Emulator/Frame.antt =====
-- emu/core/emulator.cpp: `run_frame` ends, from every state that the emulator can be in.
use yanesemu.Prelude.{
  ℕ, zero, suc, ◌*◌, ◌<◌, ◌≡◌, ◌∙◌, refl, ap, arith, Bool, true, false, Bool-cases, ◌⊎◌, inl, inr,
  if◌then◌else◌, Option, none, some,
}
use yanesemu.Ppu.Timing.Frames.{distance, runs_reach_vblank}
use yanesemu.Emulator as E
use yanesemu.Emulator.{Emulator, Setup}
use yanesemu.Emulator.Progress.{CallbackKeeps, Running, Progress, run-Running, run-Progress}

module _ {V : Type 0} (setup : Setup V) (c : CallbackKeeps setup) where
  -- The result of the loop of `run_frame`: a state in which the flag is set.
  abbrev Ends : ℕ → Emulator V → Type 0
  Ends fuel s =
      (t : Emulator V) × (E.run_until setup fuel s ≡ some t)
      × (t.board.world.nmi ≡ true)
      × Running t

  -- The NMI is raised, or the dots that are left are less than three times the fuel.
  abbrev Near : ℕ → Emulator V → Type 0
  Near fuel s = (s.board.world.nmi ≡ true) ⊎ (distance s.board.ppu.clock < 3 * fuel)

  nearer :
      (fuel : ℕ) (s t : Emulator V)
      → Progress s t
      → distance s.board.ppu.clock < 3 * suc fuel
      → Near fuel t
  nearer fuel s t (inl set) below = inl set
  nearer fuel s t (inr closer) below = inr (omega arith)

  ended : (fuel : ℕ) (s : Emulator V) → Running s → s.board.world.nmi ≡ true → Ends (suc fuel) s
  unfolding E.run_until
  ended fuel s r set = (
    s,
    ap (λ (b : Bool). if b then some s else E.run_until setup fuel (E.run setup s)) set,
    set,
    r,
  )

  goes_on :
      (fuel : ℕ) (s : Emulator V)
      → s.board.world.nmi ≡ false
      → Ends fuel (E.run setup s)
      → Ends (suc fuel) s
  unfolding E.run_until
  goes_on fuel s unset (t, e, set, r) = (
    t,
    ap (λ (b : Bool). if b then some s else E.run_until setup fuel (E.run setup s)) unset ∙ e,
    set,
    r,
  )

  run_until-Ends : (fuel : ℕ) (s : Emulator V) → Running s → Near fuel s → Ends (suc fuel) s
  run_until-Ends zero s r (inl set) = ended zero s r set
  run_until-Ends zero s r (inr below) = absurd (omega arith)
  run_until-Ends (suc fuel) s r (inl set) = ended (suc fuel) s r set
  run_until-Ends (suc fuel) s r (inr below) = elim (Bool-cases s.board.world.nmi) [
    | inl set ↦ ended (suc fuel) s r set
    | inr unset ↦ goes_on (suc fuel) s unset (
        run_until-Ends fuel (E.run setup s) (run-Running setup c s r)
          (nearer fuel s (E.run setup s) (run-Progress setup c s r) below))
  ]

  cleared-Running : (t : Emulator V) → Running t → Running (E.clear_nmi setup t)
  cleared-Running t r = record {
    buses = record {
      vram_nmi = r.buses.vram_nmi;
      vram_cycles = r.buses.vram_cycles;
      ram_clock = r.buses.ram_clock;
      ram_nmi = r.buses.ram_nmi;
    };
    in_frame = r.in_frame;
    late = r.late;
    late_bound = r.late_bound;
    behind = record { fits = r.behind.fits; cycles = r.behind.cycles };
  }

  frame_of :
      (s : Emulator V) (quit : Bool) (o : Option (Emulator V)) (t : Emulator V)
      → o ≡ some t
      → Running s
      → Running t
      → let result : Option (Emulator V) =
          if quit then some s else elim o [ none ↦ none | some u ↦ some (E.clear_nmi setup u) ] in
        (u : Emulator V) × (result ≡ some u)
        × Running u
        × (quit ≡ false → u.board.world.nmi ≡ false)
  frame_of s true o t e r q = (s, refl, r, λ no. cc)
  frame_of s false o t e r q = (
    E.clear_nmi setup t,
    ap (λ (p : Option (Emulator V)). elim p [ none ↦ none | some u ↦ some (E.clear_nmi setup u) ])
        e,
    cleared-Running t q,
    λ no. refl,
  )

  -- `run_frame` ends: at most 29782 rounds of its loop are needed, whatever program the CPU runs and
  -- wherever in a frame the PPU stands, if the callback of the debugger leaves the clock of the
  -- PPU and the flag of the NMI. The flag is off afterwards unless the debugger has quit, and what
  -- holds between two frames holds again.
  pub run_frame-ends :
      (s : Emulator V)
      → Running s
      → (t : Emulator V) × (E.run_frame setup 29782 s ≡ some t)
        × Running t
        × (setup.has_quit s.board.world.rest ≡ false → t.board.world.nmi ≡ false)
  unfolding E.run_frame
  run_frame-ends s r =
      let bound = (runs_reach_vblank ⦃video = E.video setup s⦄ s.board r.in_frame).0 in
      let (t, e, set, q) = run_until-Ends 29781 s r (inr (omega arith)) in
      frame_of s (setup.has_quit s.board.world.rest) (E.run_until setup 29782 s) t e r q
