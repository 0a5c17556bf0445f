-- ===== src/Cpu/Words.antt =====
-- emu/core/cpu.hpp and cpu.cpp: every operation of the CPU keeps its members in the ranges of their
-- C++ types, provided that the bus delivers bytes.
mod Modes
mod Control
use Modes
pub use Modes.{IsSized, ReadsBytes}
use Control
use yanesemu.Prelude.{
  ℕ, zero, suc, ◌+◌, ◌%◌, ◌^◌, ◌<◌, arith, Bool, true, false, Option, none, some, lookup,
}
use yanesemu.Cpu.State.{Regs, Env, Machine}
use yanesemu.Cpu.Exec.{◌>>=◌}
use yanesemu.Cpu.Access.{fetch, cycle}
use yanesemu.Cpu.Alu.Words
use yanesemu.Cpu.Alu.Words.{IsWords}
use yanesemu.Cpu.Control as Ctl
use yanesemu.Cpu.Control.{Flag, Register, get_register}
use yanesemu.Cpu.Dispatch.{
  ReadOp, ReadMode, ModifyOp, ModifyMode, WriteMode, Implied, Entry, instr_table,
}
use yanesemu.Cpu.Execute.{
  read_func, modify_func, perform, perform_case, execute, run_with, run, clear_range, power, reset,
}

read_func-IsWords :
    (op : ReadOp) (v : ℕ) (r : Regs) → v < 256 → IsWords r → IsWords (read_func op v r)
read_func-IsWords ReadOp.lda v r h w = Words.instr_lda-IsWords v r h w
read_func-IsWords ReadOp.ldx v r h w = Words.instr_ldx-IsWords v r h w
read_func-IsWords ReadOp.ldy v r h w = Words.instr_ldy-IsWords v r h w
read_func-IsWords ReadOp.cmp v r h w = (Words.instr_compares-IsWords v r h w).0
read_func-IsWords ReadOp.cpx v r h w = (Words.instr_compares-IsWords v r h w).1
read_func-IsWords ReadOp.cpy v r h w = (Words.instr_compares-IsWords v r h w).2
read_func-IsWords ReadOp.adc v r h w = Words.instr_adc-IsWords v r h w
read_func-IsWords ReadOp.sbc v r h w = Words.instr_sbc-IsWords v r h w
read_func-IsWords ReadOp.ora v r h w = Words.instr_ora-IsWords v r h w
read_func-IsWords ReadOp.and v r h w = Words.instr_and-IsWords v r h w
read_func-IsWords ReadOp.eor v r h w = Words.instr_eor-IsWords v r h w
read_func-IsWords ReadOp.bit v r h w = Words.instr_bit-IsWords v r h w

modify_func-IsWords :
    (op : ModifyOp) (v : ℕ) (r : Regs)
    → v < 256
    → IsWords r
    → IsWords (modify_func op v r).1 × ((modify_func op v r).0 < 256)
modify_func-IsWords ModifyOp.inc v r h w = Words.instr_inc-IsWords v r h w
modify_func-IsWords ModifyOp.dec v r h w = Words.instr_dec-IsWords v r h w
modify_func-IsWords ModifyOp.asl v r h w = Words.instr_asl-IsWords v r h w
modify_func-IsWords ModifyOp.lsr v r h w = Words.instr_lsr-IsWords v r h w
modify_func-IsWords ModifyOp.rol v r h w = Words.instr_rol-IsWords v r h w
modify_func-IsWords ModifyOp.ror v r h w = Words.instr_ror-IsWords v r h w

register-lt : (reg : Register) (r : Regs) → IsWords r → get_register reg r < 256
register-lt Register.acc r w = w.acc
register-lt Register.x r w = w.x
register-lt Register.y r w = w.y
register-lt Register.sp r w = w.sp

module _ {W : Type 0} ⦃env : Env W⦄ (b : ReadsBytes env) (s : Machine W) (h : IsSized s) where
  perform_read-IsSized :
      (op : ReadOp) (mode : ReadMode) → IsSized (perform (Entry.read op mode) s).1
  unfolding perform
  perform_read-IsSized op ReadMode.imm =
      Modes.addrmode_imm_read-IsSized b (read_func op) (read_func-IsWords op) s h
  perform_read-IsSized op ReadMode.zero =
      Modes.addrmode_zero_read-IsSized b (read_func op) (read_func-IsWords op) s h
  perform_read-IsSized op ReadMode.zerox =
      Modes.addrmode_zerox_read-IsSized b (read_func op) (read_func-IsWords op) s h
  perform_read-IsSized op ReadMode.zeroy =
      Modes.addrmode_zeroy_read-IsSized b (read_func op) (read_func-IsWords op) s h
  perform_read-IsSized op ReadMode.abs =
      Modes.addrmode_abs_read-IsSized b (read_func op) (read_func-IsWords op) s h
  perform_read-IsSized op ReadMode.absx =
      Modes.addrmode_absx_read-IsSized b (read_func op) (read_func-IsWords op) s h
  perform_read-IsSized op ReadMode.absy =
      Modes.addrmode_absy_read-IsSized b (read_func op) (read_func-IsWords op) s h
  perform_read-IsSized op ReadMode.indx =
      Modes.addrmode_indx_read-IsSized b (read_func op) (read_func-IsWords op) s h
  perform_read-IsSized op ReadMode.indy =
      Modes.addrmode_indy_read-IsSized b (read_func op) (read_func-IsWords op) s h

  perform-modify-IsSized :
      (op : ModifyOp) (mode : ModifyMode) → IsSized (perform (Entry.modify op mode) s).1
  unfolding perform
  perform-modify-IsSized op ModifyMode.accum =
      Modes.addrmode_accum_modify-IsSized b (modify_func op) (modify_func-IsWords op) s h
  perform-modify-IsSized op ModifyMode.zero =
      Modes.addrmode_zero_modify-IsSized b (modify_func op) (modify_func-IsWords op) s h
  perform-modify-IsSized op ModifyMode.zerox =
      Modes.addrmode_zerox_modify-IsSized b (modify_func op) (modify_func-IsWords op) s h
  perform-modify-IsSized op ModifyMode.abs =
      Modes.addrmode_abs_modify-IsSized b (modify_func op) (modify_func-IsWords op) s h
  perform-modify-IsSized op ModifyMode.absx =
      Modes.addrmode_absx_modify-IsSized b (modify_func op) (modify_func-IsWords op) s h

  perform_write-IsSized :
      (mode : WriteMode) (reg : Register) → IsSized (perform (Entry.write mode reg) s).1
  unfolding perform ◌>>=◌
  perform_write-IsSized WriteMode.zero reg = Modes.addrmode_zero_write-IsSized b _ s h
  perform_write-IsSized WriteMode.zerox reg = Modes.addrmode_zerox_write-IsSized b _ s h
  perform_write-IsSized WriteMode.zeroy reg = Modes.addrmode_zeroy_write-IsSized b _ s h
  perform_write-IsSized WriteMode.abs reg = Modes.addrmode_abs_write-IsSized b _ s h
  perform_write-IsSized WriteMode.absx reg = Modes.addrmode_absx_write-IsSized b _ s h
  perform_write-IsSized WriteMode.absy reg = Modes.addrmode_absy_write-IsSized b _ s h
  perform_write-IsSized WriteMode.indx reg = Modes.addrmode_indx_write-IsSized b _ s h
  perform_write-IsSized WriteMode.indy reg = Modes.addrmode_indy_write-IsSized b _ s h

  perform_implied-IsSized : (i : Implied) → IsSized (perform (Entry.impld i) s).1
  unfolding perform
  perform_implied-IsSized Implied.brk = Control.instr_brk-IsSized b s h
  perform_implied-IsSized Implied.php = Control.instr_php-IsSized b s h
  perform_implied-IsSized Implied.plp = Control.instr_plp-IsSized b s h
  perform_implied-IsSized Implied.pha = Control.instr_pha-IsSized b s h
  perform_implied-IsSized Implied.pla = Control.instr_pla-IsSized b s h
  perform_implied-IsSized Implied.jsr = Control.instr_jsr-IsSized b s h
  perform_implied-IsSized Implied.jmp = Control.instr_jmp-IsSized b s h
  perform_implied-IsSized Implied.jmp_ind = Control.instr_jmp_ind-IsSized b s h
  perform_implied-IsSized Implied.rts = Control.instr_rts-IsSized b s h
  perform_implied-IsSized Implied.rti = Control.instr_rti-IsSized b s h
  perform_implied-IsSized Implied.inx = Control.instr_inx-IsSized b s h
  perform_implied-IsSized Implied.iny = Control.instr_iny-IsSized b s h
  perform_implied-IsSized Implied.dex = Control.instr_dex-IsSized b s h
  perform_implied-IsSized Implied.dey = Control.instr_dey-IsSized b s h
  perform_implied-IsSized Implied.nop = Control.instr_nop-IsSized b s h

  pub perform-IsSized : (e : Entry) → IsSized (perform e s).1
  perform-IsSized (Entry.impld i) = perform_implied-IsSized i
  perform-IsSized (Entry.read op mode) = perform_read-IsSized op mode
  perform-IsSized (Entry.modify op mode) = perform-modify-IsSized op mode
  perform-IsSized (Entry.write mode reg) = perform_write-IsSized mode reg
  perform-IsSized (Entry.branch f v) = unfold perform ◌>>=◌ in Control.instr_branch-IsSized b s h _
  perform-IsSized (Entry.flag f v) = unfold perform in Control.instr_flag-IsSized b s h f v
  perform-IsSized (Entry.transfer from to) =
      unfold perform ◌>>=◌ in
      Control.instr_transfer-IsSized b s h _ to (register-lt from s.cpu.r h.regs)

  perform_case-IsSized : (o : Option Entry) → IsSized (perform_case o s).1
  unfolding perform_case ◌>>=◌
  perform_case-IsSized none = h
  perform_case-IsSized (some e) = perform-IsSized e

  pub fetch-IsSized : IsSized (fetch s).1
  unfolding fetch
  fetch-IsSized = ground arith

  cycle-IsSized : IsSized (cycle s).1
  unfolding cycle
  cycle-IsSized = ground arith

module _ {W : Type 0} ⦃env : Env W⦄ (b : ReadsBytes env) (s : Machine W) (h : IsSized s) where
  interrupt_after_cycle : IsSized (Ctl.interrupt (cycle s).1).1
  interrupt_after_cycle = Control.interrupt-IsSized b (cycle s).1 (cycle-IsSized b s h)

  run_with-IsSized : (nmi irq : Bool) → IsSized (run_with nmi irq s).1
  unfolding run_with execute ◌>>=◌
  run_with-IsSized true irq =
      let after = interrupt_after_cycle in record { regs = after.regs; opargs = after.opargs }
  run_with-IsSized false true =
      let after = interrupt_after_cycle in record { regs = after.regs; opargs = after.opargs }
  run_with-IsSized false false = perform_case-IsSized b (fetch s).1 (fetch-IsSized b s h) _

  -- A step of the CPU keeps the registers and the latched operand in the ranges of their types,
  -- whatever it fetches and whatever is pending, if the bus delivers bytes.
  pub run-IsSized : IsSized (run s).1
  unfolding run
  run-IsSized = run_with-IsSized s.cpu.execnmi s.cpu.execirq
