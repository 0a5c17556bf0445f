-- ===== src/Cpu/Timing.antt =====
-- emu/core/cpu.cpp and instructions.cpp: the cycles that `CPU::run` takes, against the numbers that
-- the comments of instructions.cpp give ("cycles: 4+1").
pub mod Modes
pub mod Documented
pub mod Control
use Modes
use Modes.{Moves, MovesMore, KeepsCounters}
use Control
use Control.{Spends}
use Documented.{documented, extra}
use yanesemu.Prelude.{
  ℕ, ◌+◌, ◌-◌, ◌%◌, ◌^◌, ◌≤◌, ◌≡◌, arith, refl, ◌⊎◌, inl, inr, Bool, true, false,
}
use yanesemu.Prelude.{Option, none, some, lookup, Option-cases, Bool-cases, if◌then◌else◌}
use yanesemu.Cpu.State.{Regs, Env, Machine}
use yanesemu.Cpu.Exec.{◌>>=◌}
use yanesemu.Cpu.Access.{fetch, cycle}
use yanesemu.Cpu.Alu
use yanesemu.Cpu.Control as Ctl
use yanesemu.Cpu.Control.{Flag, Register, get_flag}
use yanesemu.Cpu.Dispatch.{
  ReadOp, ReadMode, ModifyOp, ModifyMode, WriteMode, Implied, Entry, instr_table,
}
use yanesemu.Cpu.Execute.{read_func, modify_func, perform, perform_case, execute, run_with, run}

-- Between `lo` and `lo + more` cycles are spent from `s` to `t`.
pub record SpendsWithin {W : Type 0} (lo more : ℕ) (s t : Machine W) : Type 0 where
  pub spent : ℕ
  pub at_least : lo ≤ spent
  pub at_most : spent ≤ lo + more
  pub moved : Spends spent s t

pub read_func-KeepsCounters : (op : ReadOp) (v : ℕ) (r : Regs) → KeepsCounters r (read_func op v r)
unfolding Alu.instr_lda Alu.instr_ldx Alu.instr_ldy Alu.instr_cmp Alu.instr_cpx Alu.instr_cpy
    Alu.instr_adc Alu.instr_sbc Alu.instr_ora Alu.instr_and Alu.instr_eor Alu.instr_bit
read_func-KeepsCounters ReadOp.lda v r = (refl, refl)
read_func-KeepsCounters _ v r = (refl, refl)

pub modify_func-KeepsCounters :
    (op : ModifyOp) (v : ℕ) (r : Regs) → KeepsCounters r (modify_func op v r).1
unfolding Alu.instr_inc Alu.instr_dec Alu.instr_asl Alu.instr_lsr Alu.instr_rol Alu.instr_ror
modify_func-KeepsCounters ModifyOp.inc v r = (refl, refl)
modify_func-KeepsCounters _ v r = (refl, refl)

module _ {W : Type 0} ⦃env : Env W⦄ (s : Machine W) where
  exactly : (n : ℕ) {t : Machine W} → Spends n s t → SpendsWithin n 0 s t
  exactly n h = record { spent = n; at_least = omega arith; at_most = omega arith; moved = h }

  within : (b n : ℕ) {t : Machine W} → MovesMore b n s t → SpendsWithin n 1 s t
  within b n (inl h) = record {
    spent = n;
    at_least = omega arith;
    at_most = omega arith;
    moved = h.1;
  }
  within b n (inr h) = record {
    spent = n + 1;
    at_least = omega arith;
    at_most = omega arith;
    moved = h.1;
  }

  perform_read :
      (op : ReadOp) (mode : ReadMode)
      → let e = Entry.read op mode in SpendsWithin (documented e - 1) (extra e) s (perform e s).1
  unfolding perform
  perform_read op ReadMode.imm =
      exactly 1 (Modes.addrmode_imm_read-Moves (read_func op) (read_func-KeepsCounters op) s).1
  perform_read op ReadMode.zero =
      exactly 2 (Modes.addrmode_zero_read-Moves (read_func op) (read_func-KeepsCounters op) s).1
  perform_read op ReadMode.zerox =
      exactly 3 (Modes.addrmode_zerox_read-Moves (read_func op) (read_func-KeepsCounters op) s).1
  perform_read op ReadMode.zeroy =
      exactly 3 (Modes.addrmode_zeroy_read-Moves (read_func op) (read_func-KeepsCounters op) s).1
  perform_read op ReadMode.abs =
      exactly 3 (Modes.addrmode_abs_read-Moves (read_func op) (read_func-KeepsCounters op) s).1
  perform_read op ReadMode.absx =
      within 2 3 (Modes.addrmode_absx_read-MovesMore (read_func op) (read_func-KeepsCounters op) s)
  perform_read op ReadMode.absy =
      within 2 3 (Modes.addrmode_absy_read-MovesMore (read_func op) (read_func-KeepsCounters op) s)
  perform_read op ReadMode.indx =
      exactly 5 (Modes.addrmode_indx_read-Moves (read_func op) (read_func-KeepsCounters op) s).1
  perform_read op ReadMode.indy =
      within 1 4 (Modes.addrmode_indy_read-MovesMore (read_func op) (read_func-KeepsCounters op) s)

  perform-modify :
      (op : ModifyOp) (mode : ModifyMode)
      → let e = Entry.modify op mode in SpendsWithin (documented e - 1) (extra e) s (perform e s).1
  unfolding perform
  perform-modify op ModifyMode.accum =
      exactly 1
        (Modes.addrmode_accum_modify-Moves (modify_func op) (modify_func-KeepsCounters op) s).1
  perform-modify op ModifyMode.zero =
      exactly 4
        (Modes.addrmode_zero_modify-Moves (modify_func op) (modify_func-KeepsCounters op) s).1
  perform-modify op ModifyMode.zerox =
      exactly 5
        (Modes.addrmode_zerox_modify-Moves (modify_func op) (modify_func-KeepsCounters op) s).1
  perform-modify op ModifyMode.abs =
      exactly 5
        (Modes.addrmode_abs_modify-Moves (modify_func op) (modify_func-KeepsCounters op) s).1
  perform-modify op ModifyMode.absx =
      exactly 6
        (Modes.addrmode_absx_modify-Moves (modify_func op) (modify_func-KeepsCounters op) s).1

  perform_write :
      (mode : WriteMode) (reg : Register)
      → let e = Entry.write mode reg in SpendsWithin (documented e - 1) (extra e) s (perform e s).1
  unfolding perform ◌>>=◌
  perform_write WriteMode.zero reg = exactly 2 (Modes.addrmode_zero_write-Moves _ s).1
  perform_write WriteMode.zerox reg = exactly 3 (Modes.addrmode_zerox_write-Moves _ s).1
  perform_write WriteMode.zeroy reg = exactly 3 (Modes.addrmode_zeroy_write-Moves _ s).1
  perform_write WriteMode.abs reg = exactly 3 (Modes.addrmode_abs_write-Moves _ s).1
  perform_write WriteMode.absx reg = exactly 4 (Modes.addrmode_absx_write-Moves _ s).1
  perform_write WriteMode.absy reg = exactly 4 (Modes.addrmode_absy_write-Moves _ s).1
  perform_write WriteMode.indx reg = exactly 5 (Modes.addrmode_indx_write-Moves _ s).1
  perform_write WriteMode.indy reg = exactly 5 (Modes.addrmode_indy_write-Moves _ s).1

  perform_implied :
      (i : Implied)
      → let e = Entry.impld i in SpendsWithin (documented e - 1) (extra e) s (perform e s).1
  unfolding perform
  perform_implied Implied.brk = exactly 6 (Control.instr_brk-Spends s)
  perform_implied Implied.php = exactly 2 (Control.instr_php-Moves s).1
  perform_implied Implied.plp = exactly 3 (Control.instr_plp-Moves s).1
  perform_implied Implied.pha = exactly 2 (Control.instr_pha-Moves s).1
  perform_implied Implied.pla = exactly 3 (Control.instr_pla-Moves s).1
  perform_implied Implied.jsr = exactly 5 (Control.instr_jsr-Spends s)
  perform_implied Implied.jmp = exactly 2 (Control.instr_jmp-Spends s)
  perform_implied Implied.jmp_ind = exactly 4 (Control.instr_jmp_ind-Spends s)
  perform_implied Implied.rts = exactly 5 (Control.instr_rts-Spends s)
  perform_implied Implied.rti = exactly 5 (Control.instr_rti-Spends s)
  perform_implied Implied.inx = exactly 1 (Control.instr_inx-Moves s).1
  perform_implied Implied.iny = exactly 1 (Control.instr_iny-Moves s).1
  perform_implied Implied.dex = exactly 1 (Control.instr_dex-Moves s).1
  perform_implied Implied.dey = exactly 1 (Control.instr_dey-Moves s).1
  perform_implied Implied.nop = exactly 1 (Control.instr_nop-Moves s).1

  branch_within : (take : Bool) → SpendsWithin 1 2 s (Ctl.instr_branch take s).1
  branch_within true = elim (Control.instr_branch_taken s) [
    | inl h ↦ record { spent = 2; at_least = omega arith; at_most = omega arith; moved = h }
    | inr h ↦ record { spent = 3; at_least = omega arith; at_most = omega arith; moved = h }
  ]
  branch_within false = record {
    spent = 1;
    at_least = omega arith;
    at_most = omega arith;
    moved = (Control.instr_branch_not_taken s).1;
  }

  perform-SpendsWithin : (e : Entry) → SpendsWithin (documented e - 1) (extra e) s (perform e s).1
  perform-SpendsWithin (Entry.impld i) = perform_implied i
  perform-SpendsWithin (Entry.read op mode) = perform_read op mode
  perform-SpendsWithin (Entry.modify op mode) = perform-modify op mode
  perform-SpendsWithin (Entry.write mode reg) = perform_write mode reg
  perform-SpendsWithin (Entry.branch f v) = unfold perform ◌>>=◌ in branch_within _
  perform-SpendsWithin (Entry.flag f v) =
      unfold perform in exactly 1 (Control.instr_flag-Moves s f v).1
  perform-SpendsWithin (Entry.transfer from to) =
      unfold perform ◌>>=◌ in exactly 1 (Control.instr_transfer-Moves s _ to).1

documented_bounds : (e : Entry) → (2 ≤ documented e) × (documented e + extra e ≤ 7)
documented_bounds (Entry.impld Implied.brk) = omega arith
documented_bounds (Entry.impld _) = omega arith
documented_bounds (Entry.read op ReadMode.imm) = omega arith
documented_bounds (Entry.read op _) = omega arith
documented_bounds (Entry.modify op ModifyMode.accum) = omega arith
documented_bounds (Entry.modify op _) = omega arith
documented_bounds (Entry.write WriteMode.zero reg) = omega arith
documented_bounds (Entry.write _ reg) = omega arith
documented_bounds _ = omega arith

module _ {W : Type 0} ⦃env : Env W⦄ (s : Machine W) where
  cycle-Spends : Spends 1 s (cycle s).1
  unfolding cycle
  cycle-Spends = omega arith

  fetch-Spends : Spends 1 s (fetch s).1
  unfolding fetch
  fetch-Spends = omega arith

  case_known :
      (o : Option Entry) (e : Entry)
      → o ≡ some e
      → SpendsWithin (documented e) (extra e) s (perform_case o (fetch s).1).1
  unfolding perform_case
  case_known o e known =
      let rest = perform-SpendsWithin (fetch s).1 e in
      rw known (record {
        spent = rest.spent + 1;
        at_least = omega (arith, rest.at_least, documented_bounds e);
        at_most = omega (arith, rest.at_most, documented_bounds e);
        moved = omega (arith, rest.moved, fetch-Spends);
      })

  run_fetched :
      (nmi irq : Bool) (e : Entry)
      → nmi ≡ false
      → irq ≡ false
      → lookup (fetch s).0 instr_table ≡ some e
      → SpendsWithin (documented e) (extra e) s (run_with nmi irq s).1
  unfolding run_with execute ◌>>=◌
  run_fetched nmi irq e no_nmi no_irq known =
      rw (no_nmi, no_irq) (case_known (lookup (fetch s).0 instr_table) e known)

  -- An instruction of the dispatch table, run with no interrupt to execute, takes the documented
  -- number of cycles, or up to the documented extra cycles more.
  pub run-documented :
      (e : Entry)
      → s.cpu.execnmi ≡ false
      → s.cpu.execirq ≡ false
      → lookup (fetch s).0 instr_table ≡ some e
      → SpendsWithin (documented e) (extra e) s (run s).1
  unfolding run
  run-documented = run_fetched s.cpu.execnmi s.cpu.execirq

  case_bounds : (o : Option Entry) → SpendsWithin 1 6 s (perform_case o (fetch s).1).1
  unfolding perform_case ◌>>=◌
  case_bounds none = record {
    spent = 1;
    at_least = omega arith;
    at_most = omega arith;
    moved = fetch-Spends;
  }
  case_bounds (some e) =
      let rest = perform-SpendsWithin (fetch s).1 e in
      record {
        spent = rest.spent + 1;
        at_least = omega arith;
        at_most = omega (arith, rest.at_most, documented_bounds e);
        moved = omega (arith, rest.moved, fetch-Spends);
      }

  interrupted : (t : Machine W) → Spends 7 s t → SpendsWithin 1 6 s t
  interrupted t h = record { spent = 7; at_least = omega arith; at_most = omega arith; moved = h }

  run_bounds : (nmi irq : Bool) → SpendsWithin 1 6 s (run_with nmi irq s).1
  unfolding run_with execute ◌>>=◌
  run_bounds true irq =
      interrupted _ (omega (arith, Control.interrupt-Spends (cycle s).1, cycle-Spends))
  run_bounds false true =
      interrupted _ (omega (arith, Control.interrupt-Spends (cycle s).1, cycle-Spends))
  run_bounds false false = case_bounds _

  -- Whatever stands in memory and whatever is pending, one `run` takes from one to seven cycles.
  pub run-SpendsWithin : SpendsWithin 1 6 s (run s).1
  unfolding run
  run-SpendsWithin = run_bounds s.cpu.execnmi s.cpu.execirq
