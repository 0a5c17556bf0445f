-- ===== src/Clidbg/Examples.antt =====
-- The theorems on emu/core/clidbg.cpp and on `disassemble_block` at concrete commands, on a world that
-- counts the reads.
use yanesemu.Prelude.{
  ◌⊎◌, ℕ, ◌+◌, ◌≡◌, refl, arith, true, false, none, some, List, [], ◌∷◌, ◌++◌, codes,
}
use yanesemu.Util.File.{File, is_space, is_word_end}
use yanesemu.Util.Strings.{strconv}
use yanesemu.Instr.Block.{
  Line, IsListing, disassemble_block, disassemble_block-ends, disassemble_block-never,
}
use yanesemu.Cpu.State.{initial_regs}
use yanesemu.Debugger as D
use yanesemu.Debugger.{Breakpoint, Event, EventType, Session, Emu}
use yanesemu.Clidbg.{Command, Reply, commands, find_command, print_block}
use yanesemu.Clidbg.Exec.{exec_break}
use yanesemu.Clidbg.Blocks.{Printed, print_block-reads}
use yanesemu.Clidbg.Breaking.{Refused, exec_break-Refused, find_break-exec_break}
use yanesemu.Clidbg.Repl.{Repl, repl, parse}
use yanesemu.Clidbg.Repl.Endless.{ReachesEnd}
use yanesemu.Clidbg.Repl.Ends.{repl-ends}
use yanesemu.Clidbg.Repl.Reading.{parse-args}

abbrev count_reads : ℕ → ℕ → ℕ × ℕ
count_reads a w = (0xea, w + 1)

abbrev emu : Emu ℕ
emu = record {
  read = count_reads;
  write = λ a v w. w;
  readreg_no_sideeff = λ a w. (0, w);
  pc = λ w. 0x8000;
  nextaddr = λ w. (0x8001, w);
  cpu_status = λ w. (record { regs = initial_regs; id = 0xea; op = 0 }, w + 3);
  print_trace = λ st w. w;
  callback = none;
}

abbrev session : Session ℕ
session = record { dbg = D.initial; world = 0 }

disassemble_block-ends_example :
    (r : List Line × ℕ) × (disassemble_block count_reads 18 0x10 0x20 0 ≡ some r)
    × IsListing count_reads 0x10 0x20 0 r.0 r.1
disassemble_block-ends_example =
    disassemble_block-ends count_reads 18 0x10 0x20 0 (omega arith) (omega arith) (omega arith)

disassemble_block-never_example : disassemble_block count_reads 100 0xfff0 0xffff 0 ≡ none
disassemble_block-never_example = disassemble_block-never count_reads 100 0xfff0 0 (omega arith)

print_block-reads_example : Printed count_reads 20 0x10 0 (print_block count_reads 21 0x10 0x24 0 0)
print_block-reads_example = print_block-reads count_reads 0x10 0x24 0 (omega arith) (omega arith)

-- `b x 8000`, `b x 8000 80FF`
exec_break-Refused_example : Refused session (exec_break (codes "x" ∷ codes "8000" ∷ []) session)
exec_break-Refused_example = exec_break-Refused session (codes "x" ∷ codes "8000" ∷ []) refl

find_break-exec_break_example :
    let o = exec_break (codes "x" ∷ codes "8000" ∷ codes "80FF" ∷ []) session in
    (o.exits ≡ false)
    × (D.find_break 0x8010 b'x' 0 o.session.dbg.breakvec ≡ some 0)
    × (o.replies ≡ Reply.breakpoint_set 0 0x8000 0x80ff ∷ [])
unfolding strconv D.find_break
find_break-exec_break_example =
    find_break-exec_break session b'x' 0x8000 0x80ff 0x8010 b'x'
      (codes "x" ∷ codes "8000" ∷ codes "80FF" ∷ []) refl refl (omega arith) refl refl

abbrev typed : File
typed = record {
  is_open = true;
  filename = [];
  input = codes " rd 2002" ++ (10 ∷ (codes "q" ++ (10 ∷ [])));
}

parse-args_example : parse typed ≡ record {
  command = Command.read_addr;
  args = codes "2002" ∷ [];
  input = record typed { input = codes "q" ++ (10 ∷ []) };
}
unfolding find_command commands is_space is_word_end
parse-args_example =
    parse-args typed (codes " ") (codes "rd") (codes "q" ++ (10 ∷ [])) (codes "2002") []
      Command.read_addr refl refl refl refl refl refl refl refl

abbrev prompt : Repl ℕ
prompt = record {
  cmd = Command.invalid;
  cmdargs = [];
  session = session;
  input = typed;
  output = [];
  unfinished = false;
}

abbrev reached : Event
reached = record {
  event_type = EventType.fetch;
  cpu_st = record { regs = initial_regs; id = 0xea; op = 0 };
  index = 0;
}

repl-ends_example :
    (t : Repl ℕ) × (repl ⦃emu = emu⦄ (λ path. true) 12 reached prompt ≡ some t)
    × ((t.unfinished ≡ false) ⊎ ((t.cmd ≡ Command.disblock) × ReachesEnd t.cmdargs))
repl-ends_example = repl-ends ⦃emu = emu⦄ (λ path. true) reached prompt refl
