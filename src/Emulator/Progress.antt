-- ===== src/Emulator/Progress.antt =====
-- emu/core/emulator.cpp: each step of the emulator brings the PPU closer to its vertical blank.
use yanesemu.Prelude.{
  ℕ, ◌+◌, ◌*◌, ◌<◌, ◌≤◌, ◌≡◌, ◌∙◌, refl, ap, sym, arith, true, ltb, Bool-cases, ◌⊎◌, inl, inr,
  Option, none, some,
}
use yanesemu.Cpu.State.{Status}
use yanesemu.Cpu.World as Cpu
use yanesemu.Cpu.World.{run-view}
use yanesemu.Ppu.World as Ppu
use yanesemu.Ppu.Timing.Frames.{InFrame, distance}
use yanesemu.Ppu.Fires.{runs_fire, runs_closer, runs_stay, runs-InFrame}
use yanesemu.Bus as B
use yanesemu.Emulator as E
use yanesemu.Emulator.{Console, Board, Emulator, Setup}
use yanesemu.Emulator.Invariant.{HasBuses}
use yanesemu.Emulator.Catchup.{Behind, CatchesUp, stepped, run-CatchesUp}

-- The callback of the debugger changes neither the clock of the PPU nor the flag of the NMI.
pub record CallbackKeeps {V : Type 0} (setup : Setup V) : Type 0 where
  pub clock :
      (f : Status → ℕ → ℕ → Board V → Board V)
      → setup.fetch_callback ≡ some f
      → (st : Status) (a m : ℕ) (b : Board V) → (f st a m b).ppu.clock ≡ b.ppu.clock
  pub nmi :
      (f : Status → ℕ → ℕ → Board V → Board V)
      → setup.fetch_callback ≡ some f
      → (st : Status) (a m : ℕ) (b : Board V) → (f st a m b).world.nmi ≡ b.world.nmi

-- What holds between two frames: the buses are wired, the PPU is somewhere in a frame, and it is not
-- far behind the CPU.
pub record Running {V : Type 0} (s : Emulator V) : Type 0 where
  pub buses : HasBuses s
  pub in_frame : InFrame s.board.ppu.clock
  pub late : ℕ
  pub late_bound : late < 715827876
  pub behind : Behind late s

module _ {V : Type 0} (setup : Setup V) (c : CallbackKeeps setup) (s : Emulator V)
    (h : HasBuses s) where
  env_clock : Cpu.KeepsView (E.env setup s) (λ b. b.ppu.clock)
  unfolding B.read B.write
  env_clock =
      let bus = h.ram_clock s.vrambus h.vram_nmi in
      record {
        read = λ a w. bus.readers _ a w;
        write = λ a v w. bus.writers _ a v w;
        fetch_callback = c.clock;
      }

  env_nmi : Cpu.KeepsView (E.env setup s) (λ b. b.world.nmi)
  unfolding B.read B.write
  env_nmi =
      let bus = h.ram_nmi s.vrambus h.vram_nmi in
      record {
        read = λ a w. bus.readers _ a w;
        write = λ a v w. bus.writers _ a v w;
        fetch_callback = c.nmi;
      }

  drawn_view :
      {X : Type 0} (view : Console V → X)
      → ((f : V → V) (w : Console V) → view (record w { rest = f w.rest }) ≡ view w)
      → (o : Option (ℕ → ℕ → ℕ → V → V)) (f : ℕ → ℕ → ℕ → Console V → Console V)
      → let p : Option (ℕ → ℕ → ℕ → Console V → Console V) = elim o [
        | none ↦ none
        | some g ↦ some (λ x y z. E.on_rest setup (g x y z))
      ] in
        p ≡ some f → (x y z : ℕ) (w : Console V) → view (f x y z w) ≡ view w
  drawn_view view rest none f e x y z w = cc
  drawn_view view rest (some g) f e x y z w =
      ap
        (λ (o : Option (ℕ → ℕ → ℕ → Console V → Console V)).
          view (elim o [ none ↦ w | some k ↦ k x y z w ]))
        (sym e)
      ∙ rest (g x y z) w

  video_nmi : Ppu.KeepsView (E.video setup s) (λ w. w.nmi)
  unfolding B.read
  video_nmi = record {
    read = λ a m w. h.vram_nmi.readers _ a (m, w);
    drawpixel = λ f e x y z w. drawn_view (λ w. w.nmi) (λ g v. refl) setup.drawpixel f e x y z w;
  }

  video_cycles : Ppu.KeepsView (E.video setup s) (λ w. w.cpu.cycles)
  unfolding B.read
  video_cycles = record {
    read = λ a m w. h.vram_cycles.readers _ a (m, w);
    drawpixel =
        λ f e x y z w. drawn_view (λ w. w.cpu.cycles) (λ g v. refl) setup.drawpixel f e x y z w;
  }

  nmi_set : (w : Console V) → (E.nmi_callback w).nmi ≡ true
  unfolding E.nmi_callback
  nmi_set w = refl

  -- The CPU leaves the clock of the PPU and the flag of the NMI.
  stepped_clock : (stepped setup s).ppu.clock ≡ s.board.ppu.clock
  stepped_clock =
      run-view ⦃env = E.env setup s⦄ (λ b. b.ppu.clock) env_clock
        (record { cpu = s.board.world.cpu; world = s.board })

  stepped_nmi : (stepped setup s).world.nmi ≡ s.board.world.nmi
  stepped_nmi =
      run-view ⦃env = E.env setup s⦄ (λ b. b.world.nmi) env_nmi
        (record { cpu = s.board.world.cpu; world = s.board })

  run-buses : HasBuses (E.run setup s)
  unfolding E.run E.catch_up
  run-buses = record {
    vram_nmi = h.vram_nmi;
    vram_cycles = h.vram_cycles;
    ram_clock = h.ram_clock;
    ram_nmi = h.ram_nmi;
  }

-- The NMI has been raised, or the PPU has come closer to the vertical blank by three dots or more.
abbrev pub Progress : {V : Type 0} → Emulator V → Emulator V → Type 0
Progress s t =
    (t.board.world.nmi ≡ true) ⊎ (distance t.board.ppu.clock + 3 ≤ distance s.board.ppu.clock)

module _ {V : Type 0} (setup : Setup V) (c : CallbackKeeps setup) (s : Emulator V)
    (r : Running s) where
  abbrev ppu_nmi : Ppu.KeepsView (E.video setup s) (λ w. w.nmi)
  ppu_nmi = video_nmi setup c s r.buses

  stepped-InFrame : InFrame (stepped setup s).ppu.clock
  stepped-InFrame = rw (stepped_clock setup c s r.buses) r.in_frame

  same_distance : distance (stepped setup s).ppu.clock ≡ distance s.board.ppu.clock
  same_distance = ap distance (stepped_clock setup c s r.buses)

  module _ (t : Emulator V) (u : CatchesUp setup r.late s t) where
    caught-InFrame : InFrame t.board.ppu.clock
    caught-InFrame = rw u.board (
        runs-InFrame ⦃video = E.video setup s⦄ (λ w. w.nmi) ppu_nmi (nmi_set setup c s r.buses)
          (3 * (r.late + u.spent)) (stepped setup s) stepped-InFrame)

    caught_nmi : s.board.world.nmi ≡ true → t.board.world.nmi ≡ true
    caught_nmi set = rw u.board (
        runs_stay ⦃video = E.video setup s⦄ (λ w. w.nmi) ppu_nmi (nmi_set setup c s r.buses)
          (3 * (r.late + u.spent)) (stepped setup s) (stepped_nmi setup c s r.buses ∙ set))

    caught-Progress : Progress s t
    caught-Progress =
        elim (Bool-cases (ltb (distance (stepped setup s).ppu.clock) (3 * (r.late + u.spent)))) [
          | inl past ↦ inl (
              rw u.board (
                runs_fire ⦃video = E.video setup s⦄ (λ w. w.nmi) ppu_nmi (nmi_set setup c s r.buses)
                  (3 * (r.late + u.spent)) (stepped setup s) stepped-InFrame (ground arith)))
          | inr before ↦ inr (
              rw u.board (
                omega (
                  arith,
                  u.at_least,
                  same_distance,
                  runs_closer ⦃video = E.video setup s⦄ (λ w. w.nmi) ppu_nmi
                      (nmi_set setup c s r.buses) (3 * (r.late + u.spent)) (stepped setup s)
                      stepped-InFrame (ground arith),
                )))
        ]

  run-CatchesUp_now : CatchesUp setup r.late s (E.run setup s)
  run-CatchesUp_now =
      run-CatchesUp setup r.late s (video_cycles setup c s r.buses) r.behind r.late_bound

  -- Running instructions keeps what holds between them, and the emulator comes closer to the NMI.
  pub run-Running : Running (E.run setup s)
  run-Running = record {
    buses = run-buses setup c s r.buses;
    in_frame = caught-InFrame (E.run setup s) run-CatchesUp_now;
    late = 0;
    late_bound = omega arith;
    behind = run-CatchesUp_now.behind;
  }

  pub run-Progress : Progress s (E.run setup s)
  run-Progress = caught-Progress (E.run setup s) run-CatchesUp_now

  run_nmi : s.board.world.nmi ≡ true → (E.run setup s).board.world.nmi ≡ true
  run_nmi = caught_nmi (E.run setup s) run-CatchesUp_now
