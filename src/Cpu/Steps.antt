-- ===== src/Cpu/Steps.antt =====
-- emu/core/cpu.cpp: how far an instruction that does not load the program counter moves it.
use yanesemu.Prelude.{ℕ, ◌+◌, ◌%◌, ◌^◌, ◌≡◌, inl, inr, Bool, true, false}
use yanesemu.Cpu.State.{Env, Machine}
use yanesemu.Cpu.Exec.{◌>>=◌}
use yanesemu.Cpu.Dispatch.{ReadOp, ReadMode, ModifyOp, ModifyMode, WriteMode, Implied, Entry}
use yanesemu.Cpu.Execute.{read_func, modify_func, perform}
use yanesemu.Cpu.Control.{Register}
use yanesemu.Cpu.Timing.{read_func-KeepsCounters, modify_func-KeepsCounters}
use yanesemu.Cpu.Timing.Modes
use yanesemu.Cpu.Timing.Modes.{MovesMore}
use yanesemu.Cpu.Timing.Control

abbrev read_bytes : ReadMode → ℕ
read_bytes ReadMode.imm = 1
read_bytes ReadMode.zero = 1
read_bytes ReadMode.zerox = 1
read_bytes ReadMode.zeroy = 1
read_bytes ReadMode.abs = 2
read_bytes ReadMode.absx = 2
read_bytes ReadMode.absy = 2
read_bytes ReadMode.indx = 1
read_bytes ReadMode.indy = 1

abbrev modify_bytes : ModifyMode → ℕ
modify_bytes ModifyMode.accum = 0
modify_bytes ModifyMode.zero = 1
modify_bytes ModifyMode.zerox = 1
modify_bytes ModifyMode.abs = 2
modify_bytes ModifyMode.absx = 2

abbrev write_bytes : WriteMode → ℕ
write_bytes WriteMode.zero = 1
write_bytes WriteMode.zerox = 1
write_bytes WriteMode.zeroy = 1
write_bytes WriteMode.abs = 2
write_bytes WriteMode.absx = 2
write_bytes WriteMode.absy = 2
write_bytes WriteMode.indx = 1
write_bytes WriteMode.indy = 1

-- The operand bytes of a case.
abbrev pub operand_bytes : Entry → ℕ
operand_bytes (Entry.read op mode) = read_bytes mode
operand_bytes (Entry.modify op mode) = modify_bytes mode
operand_bytes (Entry.write mode reg) = write_bytes mode
operand_bytes e = 0

-- Whether a case is one of those: no branch, and no implied instruction that loads the program
-- counter.
abbrev pub is_plain : Entry → Bool
is_plain (Entry.impld Implied.brk) = false
is_plain (Entry.impld Implied.jsr) = false
is_plain (Entry.impld Implied.jmp) = false
is_plain (Entry.impld Implied.jmp_ind) = false
is_plain (Entry.impld Implied.rts) = false
is_plain (Entry.impld Implied.rti) = false
is_plain (Entry.branch f v) = false
is_plain e = true

-- From `s` to `t` the program counter moves on by `bytes`.
pub record Steps {W : Type 0} (bytes : ℕ) (s t : Machine W) : Type 0 where
  pub pc : t.cpu.pc % 2 ^ 16 ≡ (s.cpu.pc + bytes) % 2 ^ 16

module _ {W : Type 0} ⦃env : Env W⦄ (s : Machine W) where
  either : (b n : ℕ) {t : Machine W} → MovesMore b n s t → Steps b s t
  either b n (inl h) = record { pc = h.0 }
  either b n (inr h) = record { pc = h.0 }

  pub read-Steps :
      (op : ReadOp) (mode : ReadMode) → Steps (read_bytes mode) s (perform (Entry.read op mode) s).1
  unfolding perform
  read-Steps op ReadMode.imm = record {
    pc = (Modes.addrmode_imm_read-Moves (read_func op) (read_func-KeepsCounters op) s).0;
  }
  read-Steps op ReadMode.zero = record {
    pc = (Modes.addrmode_zero_read-Moves (read_func op) (read_func-KeepsCounters op) s).0;
  }
  read-Steps op ReadMode.zerox = record {
    pc = (Modes.addrmode_zerox_read-Moves (read_func op) (read_func-KeepsCounters op) s).0;
  }
  read-Steps op ReadMode.zeroy = record {
    pc = (Modes.addrmode_zeroy_read-Moves (read_func op) (read_func-KeepsCounters op) s).0;
  }
  read-Steps op ReadMode.abs = record {
    pc = (Modes.addrmode_abs_read-Moves (read_func op) (read_func-KeepsCounters op) s).0;
  }
  read-Steps op ReadMode.absx =
      either 2 3 (Modes.addrmode_absx_read-MovesMore (read_func op) (read_func-KeepsCounters op) s)
  read-Steps op ReadMode.absy =
      either 2 3 (Modes.addrmode_absy_read-MovesMore (read_func op) (read_func-KeepsCounters op) s)
  read-Steps op ReadMode.indx = record {
    pc = (Modes.addrmode_indx_read-Moves (read_func op) (read_func-KeepsCounters op) s).0;
  }
  read-Steps op ReadMode.indy =
      either 1 4 (Modes.addrmode_indy_read-MovesMore (read_func op) (read_func-KeepsCounters op) s)

  pub modify-Steps :
      (op : ModifyOp) (mode : ModifyMode)
      → Steps (modify_bytes mode) s (perform (Entry.modify op mode) s).1
  unfolding perform
  modify-Steps op ModifyMode.accum = record {
    pc = (Modes.addrmode_accum_modify-Moves (modify_func op) (modify_func-KeepsCounters op) s).0;
  }
  modify-Steps op ModifyMode.zero = record {
    pc = (Modes.addrmode_zero_modify-Moves (modify_func op) (modify_func-KeepsCounters op) s).0;
  }
  modify-Steps op ModifyMode.zerox = record {
    pc = (Modes.addrmode_zerox_modify-Moves (modify_func op) (modify_func-KeepsCounters op) s).0;
  }
  modify-Steps op ModifyMode.abs = record {
    pc = (Modes.addrmode_abs_modify-Moves (modify_func op) (modify_func-KeepsCounters op) s).0;
  }
  modify-Steps op ModifyMode.absx = record {
    pc = (Modes.addrmode_absx_modify-Moves (modify_func op) (modify_func-KeepsCounters op) s).0;
  }

  pub write-Steps :
      (mode : WriteMode) (reg : Register)
      → Steps (write_bytes mode) s (perform (Entry.write mode reg) s).1
  unfolding perform ◌>>=◌
  write-Steps WriteMode.zero reg = record { pc = (Modes.addrmode_zero_write-Moves _ s).0 }
  write-Steps WriteMode.zerox reg = record { pc = (Modes.addrmode_zerox_write-Moves _ s).0 }
  write-Steps WriteMode.zeroy reg = record { pc = (Modes.addrmode_zeroy_write-Moves _ s).0 }
  write-Steps WriteMode.abs reg = record { pc = (Modes.addrmode_abs_write-Moves _ s).0 }
  write-Steps WriteMode.absx reg = record { pc = (Modes.addrmode_absx_write-Moves _ s).0 }
  write-Steps WriteMode.absy reg = record { pc = (Modes.addrmode_absy_write-Moves _ s).0 }
  write-Steps WriteMode.indx reg = record { pc = (Modes.addrmode_indx_write-Moves _ s).0 }
  write-Steps WriteMode.indy reg = record { pc = (Modes.addrmode_indy_write-Moves _ s).0 }

  pub implied-Steps :
      (i : Implied) → is_plain (Entry.impld i) ≡ true → Steps 0 s (perform (Entry.impld i) s).1
  unfolding perform
  implied-Steps Implied.brk h = cc
  implied-Steps Implied.php h = record { pc = (Control.instr_php-Moves s).0 }
  implied-Steps Implied.plp h = record { pc = (Control.instr_plp-Moves s).0 }
  implied-Steps Implied.pha h = record { pc = (Control.instr_pha-Moves s).0 }
  implied-Steps Implied.pla h = record { pc = (Control.instr_pla-Moves s).0 }
  implied-Steps Implied.jsr h = cc
  implied-Steps Implied.jmp h = cc
  implied-Steps Implied.jmp_ind h = cc
  implied-Steps Implied.rts h = cc
  implied-Steps Implied.rti h = cc
  implied-Steps Implied.inx h = record { pc = (Control.instr_inx-Moves s).0 }
  implied-Steps Implied.iny h = record { pc = (Control.instr_iny-Moves s).0 }
  implied-Steps Implied.dex h = record { pc = (Control.instr_dex-Moves s).0 }
  implied-Steps Implied.dey h = record { pc = (Control.instr_dey-Moves s).0 }
  implied-Steps Implied.nop h = record { pc = (Control.instr_nop-Moves s).0 }

  -- A case that is no branch and loads no program counter moves it over its operand bytes.
  pub perform-Steps : (e : Entry) → is_plain e ≡ true → Steps (operand_bytes e) s (perform e s).1
  perform-Steps (Entry.impld i) h = implied-Steps i h
  perform-Steps (Entry.read op mode) h = read-Steps op mode
  perform-Steps (Entry.modify op mode) h = modify-Steps op mode
  perform-Steps (Entry.write mode reg) h = write-Steps mode reg
  perform-Steps (Entry.branch f v) h = cc
  perform-Steps (Entry.flag f v) h =
      unfold perform in record { pc = (Control.instr_flag-Moves s f v).0 }
  perform-Steps (Entry.transfer from to) h =
      unfold perform ◌>>=◌ in record { pc = (Control.instr_transfer-Moves s _ to).0 }
