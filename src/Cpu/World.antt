-- ===== src/Cpu/World.antt =====
-- emu/core/cpu.cpp: what the accesses of the CPU keep of the world behind its bus, a step keeps.
pub mod Modes
mod Control
pub use Modes.{KeepsView}
use Control
use yanesemu.Prelude.{ℕ, ◌≡◌, ◌∙◌, refl, arith, Bool, true, false, Option, none, some}
use yanesemu.Cpu.State.{Env, Machine}
use yanesemu.Cpu.Exec.{◌>>=◌}
use yanesemu.Cpu.Access.{fetch, cycle}
use yanesemu.Cpu.Control as Ctl
use yanesemu.Cpu.Dispatch.{ReadOp, ReadMode, ModifyOp, ModifyMode, WriteMode, Implied, Entry}
use yanesemu.Cpu.Execute.{read_func, modify_func, perform, perform_case, execute, run, run_with}
use yanesemu.Cpu.Control.{Register}

module _ {W V : Type 0} ⦃env : Env W⦄ (view : W → V) (k : KeepsView env view) (s : Machine W) where
  perform_read-view :
      (op : ReadOp) (mode : ReadMode) → view (perform (Entry.read op mode) s).1.world ≡ view s.world
  unfolding perform
  perform_read-view op ReadMode.imm = Modes.addrmode_imm_read-view view k (read_func op) s
  perform_read-view op ReadMode.zero = Modes.addrmode_zero_read-view view k (read_func op) s
  perform_read-view op ReadMode.zerox = Modes.addrmode_zerox_read-view view k (read_func op) s
  perform_read-view op ReadMode.zeroy = Modes.addrmode_zeroy_read-view view k (read_func op) s
  perform_read-view op ReadMode.abs = Modes.addrmode_abs_read-view view k (read_func op) s
  perform_read-view op ReadMode.absx = Modes.addrmode_absx_read-view view k (read_func op) s
  perform_read-view op ReadMode.absy = Modes.addrmode_absy_read-view view k (read_func op) s
  perform_read-view op ReadMode.indx = Modes.addrmode_indx_read-view view k (read_func op) s
  perform_read-view op ReadMode.indy = Modes.addrmode_indy_read-view view k (read_func op) s

  perform-modify-view :
      (op : ModifyOp) (mode : ModifyMode)
      → view (perform (Entry.modify op mode) s).1.world ≡ view s.world
  unfolding perform
  perform-modify-view op ModifyMode.accum =
      Modes.addrmode_accum_modify-view view k (modify_func op) s
  perform-modify-view op ModifyMode.zero = Modes.addrmode_zero_modify-view view k (modify_func op) s
  perform-modify-view op ModifyMode.zerox =
      Modes.addrmode_zerox_modify-view view k (modify_func op) s
  perform-modify-view op ModifyMode.abs = Modes.addrmode_abs_modify-view view k (modify_func op) s
  perform-modify-view op ModifyMode.absx = Modes.addrmode_absx_modify-view view k (modify_func op) s

  perform_write-view :
      (mode : WriteMode) (reg : Register)
      → view (perform (Entry.write mode reg) s).1.world ≡ view s.world
  unfolding perform ◌>>=◌
  perform_write-view WriteMode.zero reg = Modes.addrmode_zero_write-view view k _ s
  perform_write-view WriteMode.zerox reg = Modes.addrmode_zerox_write-view view k _ s
  perform_write-view WriteMode.zeroy reg = Modes.addrmode_zeroy_write-view view k _ s
  perform_write-view WriteMode.abs reg = Modes.addrmode_abs_write-view view k _ s
  perform_write-view WriteMode.absx reg = Modes.addrmode_absx_write-view view k _ s
  perform_write-view WriteMode.absy reg = Modes.addrmode_absy_write-view view k _ s
  perform_write-view WriteMode.indx reg = Modes.addrmode_indx_write-view view k _ s
  perform_write-view WriteMode.indy reg = Modes.addrmode_indy_write-view view k _ s

  perform_implied-view : (i : Implied) → view (perform (Entry.impld i) s).1.world ≡ view s.world
  unfolding perform
  perform_implied-view Implied.brk = Control.instr_brk-view view k s
  perform_implied-view Implied.php = Control.instr_php-view view k s
  perform_implied-view Implied.plp = Control.instr_plp-view view k s
  perform_implied-view Implied.pha = Control.instr_pha-view view k s
  perform_implied-view Implied.pla = Control.instr_pla-view view k s
  perform_implied-view Implied.jsr = Control.instr_jsr-view view k s
  perform_implied-view Implied.jmp = Control.instr_jmp-view view k s
  perform_implied-view Implied.jmp_ind = Control.instr_jmp_ind-view view k s
  perform_implied-view Implied.rts = Control.instr_rts-view view k s
  perform_implied-view Implied.rti = Control.instr_rti-view view k s
  perform_implied-view Implied.inx = Control.instr_inx-view view k s
  perform_implied-view Implied.iny = Control.instr_iny-view view k s
  perform_implied-view Implied.dex = Control.instr_dex-view view k s
  perform_implied-view Implied.dey = Control.instr_dey-view view k s
  perform_implied-view Implied.nop = Control.instr_nop-view view k s

  pub perform-view : (e : Entry) → view (perform e s).1.world ≡ view s.world
  perform-view (Entry.impld i) = perform_implied-view i
  perform-view (Entry.read op mode) = perform_read-view op mode
  perform-view (Entry.modify op mode) = perform-modify-view op mode
  perform-view (Entry.write mode reg) = perform_write-view mode reg
  perform-view (Entry.branch f v) = unfold perform ◌>>=◌ in Control.instr_branch-view view k s _
  perform-view (Entry.flag f v) = unfold perform in Control.instr_flag-view view k s f v
  perform-view (Entry.transfer from to) =
      unfold perform ◌>>=◌ in Control.instr_transfer-view view k s _ to

  perform_case-view : (o : Option Entry) → view (perform_case o s).1.world ≡ view s.world
  unfolding perform_case ◌>>=◌
  perform_case-view none = refl
  perform_case-view (some e) = perform-view e

  pub fetch-view : view (fetch s).1.world ≡ view s.world
  unfolding fetch
  fetch-view = grind (arith, k.read, k.write, k.fetch_callback)

  cycle-view : view (cycle s).1.world ≡ view s.world
  unfolding cycle
  cycle-view = grind (arith, k.read, k.write, k.fetch_callback)

module _ {W V : Type 0} ⦃env : Env W⦄ (view : W → V) (k : KeepsView env view) (s : Machine W) where
  run_with-view : (nmi irq : Bool) → view (run_with nmi irq s).1.world ≡ view s.world
  unfolding run_with execute ◌>>=◌
  run_with-view true irq = Control.interrupt-view view k (cycle s).1 ∙ cycle-view view k s
  run_with-view false true = Control.interrupt-view view k (cycle s).1 ∙ cycle-view view k s
  run_with-view false false = perform_case-view view k (fetch s).1 _ ∙ fetch-view view k s

  -- A step of the CPU keeps what its accesses keep of the world, whatever it executes: the bus and
  -- the callback are all it reaches.
  pub run-view : view (run s).1.world ≡ view s.world
  unfolding run
  run-view = run_with-view s.cpu.execnmi s.cpu.execirq
