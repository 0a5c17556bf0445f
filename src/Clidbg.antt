-- ===== src/Clidbg.antt =====
-- emu/core/clidbg.hpp and clidbg.cpp: the commands of the debugger on the command line. What it
-- prints is a list of replies; how a reply is put into words is not modelled.
pub mod Exec
pub mod Repl
pub mod Blocks
pub mod Breaking
mod Examples
use Prim.Native.String.{String}
use yanesemu.Prelude.{
  ℕ, zero, suc, ◌+◌, ◌-◌, ◌*◌, ◌%◌, ◌^◌, bit_or, Bool, true, false, not, ltb, leb, ◌==◌, ◌&&◌, ◌||◌,
  if◌then◌else◌, Option, none, some, List, [], ◌∷◌, ◌++◌, length, get_elem?, Text, codes, same_text,
}
use yanesemu.Util.File.{File, getword, getline, is_empty}
use yanesemu.Util.Strings.{strsplit, strconv}
use yanesemu.Instr.Block.{Line, disassemble_block}
use yanesemu.Cpu.State.{Status}
use yanesemu.Debugger as D
use yanesemu.Debugger.{Breakpoint, Event, EventType, Session, Emu}

pub data Command : Type 0 where
  help continue runframe break list_break delbreak backtrace next step status read_addr write_addr
        block disassemble disblock trace stop_trace reset quit invalid last :
      Command

-- A row of the table `O(X)`, without the description.
pub record Row : Type 0 where
  pub name : String
  pub abbrev_name : String
  pub command : Command
  pub minargs : ℕ

abbrev pub row : String → String → Command → ℕ → Row
row n a c m = record { name = n; abbrev_name = a; command = c; minargs = m }

unfoldable pub commands : List Row
commands =
    row "help" "h" Command.help 0
    ∷ row "continue" "c" Command.continue 0
    ∷ row "runframe" "nmi" Command.runframe 0
    ∷ row "break" "b" Command.break 2
    ∷ row "listbreaks" "lb" Command.list_break 0
    ∷ row "deletebreak" "dlb" Command.delbreak 1
    ∷ row "backtrace" "bt" Command.backtrace 0
    ∷ row "next" "n" Command.next 0
    ∷ row "step" "s" Command.step 0
    ∷ row "status" "st" Command.status 0
    ∷ row "read" "rd" Command.read_addr 1
    ∷ row "write" "wr" Command.write_addr 2
    ∷ row "block" "bl" Command.block 2
    ∷ row "disassemble" "dis" Command.disassemble 1
    ∷ row "disblock" "disb" Command.disblock 2
    ∷ row "trace" "tr" Command.trace 1
    ∷ row "stoptrace" "str" Command.stop_trace 0
    ∷ row "reset" "res" Command.reset 0
    ∷ row "quit" "q" Command.quit 0
    ∷ []

-- `cmd_strtab.find`, by the name or the abbreviation.
unfoldable pub find_command : Text → List Row → Option Command
find_command cmd [] = none
find_command cmd (r ∷ rows) =
    let rest = find_command cmd rows in
    if same_text cmd (codes r.name) || same_text cmd (codes r.abbrev_name)
    then some r.command
    else rest

-- `cmd_infotab.find(cmd)->second.minargs`. `LAST` is not in that table, and is never stored.
unfoldable pub minargs_of : Command → ℕ
minargs_of Command.break = 2
minargs_of Command.delbreak = 1
minargs_of Command.read_addr = 1
minargs_of Command.write_addr = 2
minargs_of Command.block = 2
minargs_of Command.disassemble = 1
minargs_of Command.disblock = 2
minargs_of Command.trace = 1
minargs_of _ = 0

-- What is printed.
pub data Reply : Type 0 where
  help_text continuing invalid_mode invalid_range index_not_valid : Reply
  breakpoint_set : (index start end : ℕ) → Reply
  breakpoint_deleted : (index : ℕ) → Reply
  no_breakpoints backtrace_empty : Reply
  breakpoint_line : (p : Breakpoint) → Reply
  call_line : (st : Status) → Reply
  disassembly : (id low high : ℕ) → Reply
  invalid_value ppu_status : Reply
  cpu_status : (st : Status) → Reply
  invalid_address : (text : Text) → Reply
  value : (v : ℕ) → Reply
  rom_warning : Reply
  block_line : (address : ℕ) (bytes : List ℕ) → Reply
  listing_line : (line : Line) → Reply
  file_error invalid_command : Reply
  breakpoint_reached : (index : ℕ) → Reply
  current_instr : (st : Status) → Reply
  not_enough : (cmd : Command) → Reply

module _ {S : Type 0} (readvalue : ℕ → S → ℕ × S) where
  -- The inner loop of `print_block`, with the rounds that `j` has left.
  unfoldable pub print_line : ℕ → ℕ → ℕ → ℕ → S → List ℕ × ℕ × S
  print_line zero start end i s = ([], i, s)
  print_line (suc j) start end i s =
      let (val, s1) = readvalue ((i + start) % 2 ^ 16) s in
      let (bytes, k, s2) = print_line j start end ((i + 1) % 2 ^ 16) s1 in
      if ltb (i + start) end then (val ∷ bytes, k, s2) else ([], i, s)

  -- `print_block` from `i` on, with fuel.
  unfoldable pub print_block : ℕ → ℕ → ℕ → ℕ → S → Option (List Reply × S)
  unfolding print_line
  print_block zero start end i s = none
  print_block (suc fuel) start end i s =
      let (bytes, k, s1) = print_line 16 start end i s in
      let rest = print_block fuel start end k s1 in
      if ltb i (end - start)
      then elim rest [ none ↦ none | some r ↦ some (Reply.block_line (i + start) bytes ∷ r.0, r.1) ]
      else some ([], s)

-- What `exec_command` returns, prints and leaves. `unfinished` tells that a loop has not ended within
-- its fuel.
pub record Outcome (W : Type 0) : Type 0 where
  pub exits : Bool
  pub replies : List Reply
  pub session : Session W
  pub unfinished : Bool

abbrev pub args_at : ℕ → List Text → Text
args_at i args = elim (get_elem? args i) [ none ↦ [] | some t ↦ t ]

-- `args.size() > i ? strconv<uint16>(args[i], 16) : other`
abbrev pub optional_arg : ℕ → List Text → Option ℕ → Option ℕ
optional_arg i args other = if ltb i (length args) then strconv 16 (args_at i args) else other

-- Whether an optional address is out of the range of a list.
abbrev pub both {ℓ} : {A : Type ℓ} → Option ℕ → Option ℕ → A → (ℕ → ℕ → A) → A
both none o other f = other
both (some a) none other f = other
both (some a) (some b) other f = f a b
