-- ===== src/Clidbg/Exec.antt =====
-- emu/core/clidbg.cpp: `exec_command`, one function for each longer case of its `switch`.
use yanesemu.Prelude.{
  ℕ, ◌+◌, ◌-◌, ◌*◌, ◌%◌, ◌^◌, bit_or, Bool, true, false, not, ltb, leb, ◌==◌, ◌&&◌, ◌||◌,
  if◌then◌else◌, Option, none, some, List, [], ◌∷◌, ◌++◌, length, Text, codes, same_text,
}
use yanesemu.Util.Strings.{strconv}
use yanesemu.Instr.Block.{Line, disassemble_block}
use yanesemu.Cpu.State.{Status}
use yanesemu.Cpu.Control.{nmi_vec}
use yanesemu.Debugger as D
use yanesemu.Debugger.{Breakpoint, Session, Emu}
use yanesemu.Clidbg.{Command, Reply, Outcome, args_at, optional_arg, both, print_block}

abbrev pub break_lines : List Breakpoint → List Reply
break_lines [] = []
break_lines (p ∷ ps) = Reply.breakpoint_line p ∷ break_lines ps

-- The first call is printed first.
abbrev pub call_lines : List Status → List Reply
call_lines [] = []
call_lines (st ∷ below) = call_lines below ++ (Reply.call_line st ∷ [])

-- `args[0][0]`; behind a text stands a 0.
abbrev pub first_char : Text → ℕ
first_char [] = 0
first_char (c ∷ rest) = c

module _ {W : Type 0} where
  abbrev pub says : List Reply → Session W → Outcome W
  says l s = record { exits = false; replies = l; session = s; unfinished = false }

  abbrev pub leaves : List Reply → Session W → Outcome W
  leaves l s = record { exits = true; replies = l; session = s; unfinished = false }

  abbrev pub with_dbg : (D.Debugger → D.Debugger) → Session W → Session W
  with_dbg f s = D.set_dbg (f s.dbg) s

  -- `case BREAK` with a mode that is accepted.
  unfoldable pub break_range : ℕ → Option ℕ → Option ℕ → Session W → Outcome W
  unfolding D.setbreak
  break_range mode start end s = both start end (says (Reply.invalid_range ∷ []) s) (λ a b.
      let (i, d) = D.setbreak (record { start = a; end = b; mode = mode }) s.dbg in
      if leb b a
      then says (Reply.invalid_range ∷ []) s
      else says (Reply.breakpoint_set i a b ∷ []) (D.set_dbg d s))

  unfoldable pub exec_break : List Text → Session W → Outcome W
  unfolding strconv break_range
  exec_break args s =
      let mode = first_char (args_at 0 args) in
      let start = strconv 16 (args_at 1 args) in
      let end = optional_arg 2 args start in
      if not (length (args_at 0 args) == 1)
        || (not (mode == b'r') && not (mode == b'w') && not (mode == b'x'))
      then says (Reply.invalid_mode ∷ []) s
      else break_range mode start end s

  -- `case DELBREAK`
  unfoldable pub exec_delbreak : List Text → Session W → Outcome W
  unfolding strconv D.delbreak
  exec_delbreak args s = elim (strconv 16 (args_at 0 args)) [
    | none ↦ says (Reply.index_not_valid ∷ []) s
    | some index ↦
        if leb (length s.dbg.breakvec) index
        then says (Reply.index_not_valid ∷ []) s
        else says (Reply.breakpoint_deleted index ∷ []) (with_dbg (D.delbreak index) s)
  ]

  unfoldable pub exec_list_break : Session W → Outcome W
  exec_list_break s = elim s.dbg.breakvec [
    | [] ↦ says (Reply.no_breakpoints ∷ []) s
    | p ∷ ps ↦ says (break_lines (p ∷ ps)) s
  ]

  unfoldable pub exec_backtrace : Session W → Outcome W
  exec_backtrace s = elim s.dbg.btrace [
    | [] ↦ says (Reply.backtrace_empty ∷ []) s
    | st ∷ below ↦ says (call_lines (st ∷ below)) s
  ]

  -- `case DISASSEMBLE`; the operands are cut to 8 bits in the call.
  unfoldable pub exec_disassemble : List Text → Session W → Outcome W
  unfolding strconv
  exec_disassemble args s =
      let bad = says (Reply.invalid_value ∷ []) s in
      both (optional_arg 1 args (some 0)) (optional_arg 2 args (some 0)) bad (λ low high.
        elim (strconv 8 (args_at 0 args)) [
          | none ↦ bad
          | some id ↦ says (Reply.disassembly id (low % 2 ^ 8) (high % 2 ^ 8) ∷ []) s
        ])

abbrev pub listing_lines : List Line → List Reply
listing_lines [] = []
listing_lines (l ∷ ls) = Reply.listing_line l ∷ listing_lines ls

-- The file that `TRACE` opens: whether that succeeds is a matter of the file system.
module _ {W : Type 0} ⦃emu : Emu W⦄ (can_open : Text → Bool) where
  -- `case RUNFRAME`
  unfoldable pub exec_runframe : Session W → Outcome W
  unfolding D.read D.set_nextstop
  exec_runframe s =
      let (low, s1) = D.read nmi_vec s in
      let (high, s2) = D.read (nmi_vec + 1) s1 in
      leaves [] (with_dbg (D.set_nextstop (bit_or low (high * 2 ^ 8))) s2)

  -- `case READ_ADDR`
  unfoldable pub exec_read : List Text → Session W → Outcome W
  unfolding strconv D.read
  exec_read args s = elim (strconv 16 (args_at 0 args)) [
    | none ↦ says (Reply.invalid_address (args_at 0 args) ∷ []) s
    | some addr ↦ let (v, s1) = D.read addr s in says (Reply.value v ∷ []) s1
  ]

  -- `case WRITE_ADDR`
  unfoldable pub exec_write : List Text → Session W → Outcome W
  unfolding strconv D.write
  exec_write args s =
      both (strconv 16 (args_at 0 args)) (strconv 8 (args_at 1 args))
        (says (Reply.invalid_value ∷ []) s)
        (λ addr newval.
          says (if leb 0x4020 addr then Reply.rom_warning ∷ [] else []) (D.write addr newval s))

  -- `case BLOCK`; a range has at most 65535 addresses.
  unfoldable pub exec_block : List Text → Session W → Outcome W
  unfolding strconv print_block D.read
  exec_block args s =
      both (strconv 16 (args_at 0 args)) (strconv 16 (args_at 1 args))
        (says (Reply.invalid_range ∷ []) s)
        (λ start end.
          if leb end start
          then says (Reply.invalid_range ∷ []) s
          else elim (print_block D.read (end - start + 1) start end 0 s) [
            | none ↦ record (says [] s) { unfinished = true }
            | some r ↦ says r.0 r.1
          ])

  -- `case DISBLOCK`
  unfoldable pub exec_disblock : List Text → Session W → Outcome W
  unfolding strconv disassemble_block D.read
  exec_disblock args s =
      both (strconv 16 (args_at 0 args)) (strconv 16 (args_at 1 args))
        (says (Reply.invalid_range ∷ []) s)
        (λ start end.
          if leb end start
          then says (Reply.invalid_range ∷ []) s
          else elim (disassemble_block D.read (end - start + 2) start end s) [
            | none ↦ record (says [] s) { unfinished = true }
            | some r ↦ says (listing_lines r.0) r.1
          ])

  -- `case STATUS`. The status of the CPU reads the bus; that of the PPU changes nothing.
  unfoldable pub exec_status : List Text → Session W → Outcome W
  unfolding D.cpu_status
  exec_status args s =
      let (st, s1) = D.cpu_status s in
      if ltb 0 (length args) && same_text (args_at 0 args) (codes "ppu")
      then says (Reply.ppu_status ∷ []) s
      else says (Reply.cpu_status st ∷ []) s1

  -- `case TRACE`
  unfoldable pub exec_trace : List Text → Session W → Outcome W
  unfolding D.start_tracing
  exec_trace args s =
      if can_open (args_at 0 args)
      then says [] (with_dbg D.start_tracing s)
      else says (Reply.file_error ∷ []) s

  unfoldable pub exec_command : Command → List Text → Session W → Outcome W
  unfolding exec_runframe exec_break exec_delbreak exec_list_break exec_backtrace exec_disassemble
      exec_status exec_read exec_write exec_block exec_disblock exec_trace D.continue_exec
      D.stop_tracing D.set_quit D.next D.step
  exec_command Command.help args s = says (Reply.help_text ∷ []) s
  exec_command Command.continue args s = leaves (Reply.continuing ∷ []) (with_dbg D.continue_exec s)
  exec_command Command.runframe args s = exec_runframe s
  exec_command Command.break args s = exec_break args s
  exec_command Command.delbreak args s = exec_delbreak args s
  exec_command Command.list_break args s = exec_list_break s
  exec_command Command.backtrace args s = exec_backtrace s
  exec_command Command.disassemble args s = exec_disassemble args s
  exec_command Command.next args s = leaves [] (D.next s)
  exec_command Command.step args s = leaves [] (D.step s)
  exec_command Command.status args s = exec_status args s
  exec_command Command.read_addr args s = exec_read args s
  exec_command Command.write_addr args s = exec_write args s
  exec_command Command.block args s = exec_block args s
  exec_command Command.disblock args s = exec_disblock args s
  exec_command Command.trace args s = exec_trace args s
  exec_command Command.stop_trace args s = says [] (with_dbg D.stop_tracing s)
  exec_command Command.reset args s = says [] s
  exec_command Command.quit args s = leaves [] (with_dbg (D.set_quit true) s)
  exec_command Command.invalid args s = says (Reply.invalid_command ∷ []) s
  exec_command Command.last args s = says [] s
