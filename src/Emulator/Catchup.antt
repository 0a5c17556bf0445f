-- ===== src/Emulator/Catchup.antt =====
-- emu/core/emulator.cpp: three dots of the PPU for each cycle of the CPU, in the arithmetic of `int`.
use yanesemu.Prelude.{
  ℕ, ◌+◌, ◌*◌, ◌%◌, ◌^◌, ◌<◌, ◌≤◌, ◌≡◌, ◌↔◌, ◌∙◌, refl, ap, arith, Bool, true, false, ◌||◌,
  Bool-cases, inl, inr,
}
use yanesemu.Cpu.State.{Machine}
use yanesemu.Cpu.Execute as Cpu
use yanesemu.Cpu.Timing.{run-SpendsWithin}
use yanesemu.Ppu.Timing.Frames.{runs}
use yanesemu.Ppu.World as Ppu
use yanesemu.Ppu.World.{runs-view}
use yanesemu.Emulator as E
use yanesemu.Emulator.{Console, Board, Emulator, Setup}

-- The difference is the number of cycles that the CPU has taken, and three times as many dots are
-- run, wherever the counters wrap around. The subtraction overflows exactly where the count of
-- cycles passes from the positive numbers of an `int` to the negative ones.
pub cycle_diff_lem :
    (cycle n : ℕ)
    → cycle < 2 ^ 32
    → n < 715827883
    → let curr = (cycle + n) % 2 ^ 32 in
      (E.cycle_diff curr cycle ≡ n)
      × (E.dots n ≡ 3 * n)
      × (E.dots_overflow n ≡ false)
      × ((E.diff_overflows curr cycle ≡ true) ↔ ((cycle < 2 ^ 31) × (2 ^ 31 ≤ cycle + n)))
unfolding E.cycle_diff E.dots E.dots_overflow E.diff_overflows
cycle_diff_lem cycle n fits h =
    (ground arith, ground arith, ground arith, (λ e. ground arith, λ e. ground arith))

-- The emulator has yet to run the PPU for `k` cycles of the CPU.
pub record Behind {V : Type 0} (k : ℕ) (s : Emulator V) : Type 0 where
  pub fits : s.cycle < 2 ^ 32
  pub cycles : s.board.world.cpu.cycles % 2 ^ 32 ≡ (s.cycle + k) % 2 ^ 32

-- The board after the CPU has run one instruction.
abbrev pub stepped : {V : Type 0} → Setup V → Emulator V → Board V
stepped setup s = E.on_cpu (Cpu.run ⦃env = E.env setup s⦄) s.board

-- From `s`, which is behind by `k` cycles, to `t`: the counter of the CPU moves by the cycles that are
-- spent, one to seven, and the PPU runs three dots for each cycle that it is behind then.
pub record CatchesUp {V : Type 0} (setup : Setup V) (k : ℕ) (s t : Emulator V) : Type 0 where
  pub spent : ℕ
  pub at_least : 1 ≤ spent
  pub at_most : spent ≤ 7
  pub moved :
      (stepped setup s).world.cpu.cycles % 2 ^ 64 ≡ (s.board.world.cpu.cycles + spent) % 2 ^ 64
  pub board : t.board ≡ runs ⦃video = E.video setup s⦄ (3 * (k + spent)) (stepped setup s)
  pub behind : Behind 0 t
  pub overflowed : s.cycle + k + spent < 2 ^ 31 → t.overflowed ≡ s.overflowed

module _ {V : Type 0} (setup : Setup V) where
  nmi_cycles : (w : Console V) → (E.nmi_callback w).cpu.cycles ≡ w.cpu.cycles
  unfolding E.nmi_callback
  nmi_cycles w = refl

  no_overflow : (a b c : Bool) → b ≡ false → c ≡ false → (a || b || c) ≡ a
  no_overflow a b c hb hc = ground arith

  still_positive :
      {b : Bool} {m n : ℕ} → ((b ≡ true) ↔ ((m < 2 ^ 31) × (2 ^ 31 ≤ n))) → n < 2 ^ 31 → b ≡ false
  still_positive {b} h below = elim (Bool-cases b) [
    | inl set ↦ absurd (omega (arith, (h.0 set).1))
    | inr unset ↦ unset
  ]

  catch_up_lem :
      (s : Emulator V) (n : ℕ)
      → Ppu.KeepsView (E.video setup s) (λ c. c.cpu.cycles)
      → s.cycle < 2 ^ 32
      → n < 715827883
      → s.board.world.cpu.cycles % 2 ^ 32 ≡ (s.cycle + n) % 2 ^ 32
      → let t = E.catch_up setup s in
        (t.board ≡ runs ⦃video = E.video setup s⦄ (3 * n) s.board)
        × Behind 0 t
        × (s.cycle + n < 2 ^ 31 → t.overflowed ≡ s.overflowed)
  unfolding E.catch_up
  catch_up_lem s n k fits small e =
      let curr = s.board.world.cpu.cycles % 2 ^ 32 in
      let lem = cycle_diff_lem s.cycle n fits small in
      let diff : E.cycle_diff curr s.cycle ≡ n = ap (λ (c : ℕ). E.cycle_diff c s.cycle) e ∙ lem.0 in
      let same =
        runs-view (E.video setup s) (λ c. c.cpu.cycles) k (λ w. nmi_cycles w)
          (E.dots (E.cycle_diff curr s.cycle)) s.board in
      (
        ap (λ (d : ℕ). runs ⦃video = E.video setup s⦄ d s.board) (ap E.dots diff ∙ lem.1),
        record { fits = omega arith; cycles = ap (λ (c : ℕ). c % 2 ^ 32) same ∙ omega arith },
        λ below.
            no_overflow s.overflowed _ _
              (ap (λ (c : ℕ). E.diff_overflows c s.cycle) e ∙ still_positive lem.3 below)
              (ap E.dots_overflow diff ∙ lem.2),
      )

  -- A step of the emulator lets the CPU run one instruction, by whose cycles, one to seven, its
  -- counter moves; it then runs the PPU exactly three dots for each of these cycles and of the `k` it
  -- was behind before, whether or not the counters wrap around, and is not behind any more
  -- afterwards. The conditions are that the accesses of the PPU leave the counter of the CPU, and that
  -- `k` is below 715827876. The arithmetic of `int` does not overflow below 2^31 cycles.
  pub run-CatchesUp :
      (k : ℕ) (s : Emulator V)
      → Ppu.KeepsView (E.video setup s) (λ c. c.cpu.cycles)
      → Behind k s
      → k < 715827876
      → CatchesUp setup k s (E.run setup s)
  unfolding E.run
  run-CatchesUp k s kept h small =
      let m : Machine (Board V) = record { cpu = s.board.world.cpu; world = s.board } in
      let took = run-SpendsWithin ⦃env = E.env setup s⦄ m in
      let u : Emulator V = record s { board = stepped setup s } in
      let lem =
        catch_up_lem u (k + took.spent) kept h.fits (omega (arith, took.at_most))
          (omega (arith, took.moved, h.cycles)) in
      record {
        spent = took.spent;
        at_least = took.at_least;
        at_most = omega (arith, took.at_most);
        moved = took.moved;
        board = lem.0;
        behind = lem.1;
        overflowed = λ below. lem.2 (omega arith);
      }
