-- ===== src/Clidbg/Repl.antt =====
-- emu/core/clidbg.cpp: reading commands until one of them leaves.
pub mod Endless
pub mod Ends
pub mod Reading
use yanesemu.Prelude.{
  ℕ, zero, suc, ◌+◌, Bool, true, false, not, ltb, ◌||◌, if◌then◌else◌, Option, none, some, List, [],
  ◌∷◌, ◌++◌, length, Text,
}
use yanesemu.Util.File.{File, getword, getline, is_empty}
use yanesemu.Util.Strings.{strsplit}
use yanesemu.Debugger.{Event, EventType, Session, Emu}
use yanesemu.Clidbg.{Command, Reply, Outcome, commands, find_command, minargs_of}
use yanesemu.Clidbg.Exec.{exec_command}

-- What `parse` returns.
pub record Parsed : Type 0 where
  pub command : Command
  pub args : List Text
  pub input : File

-- A command that is not found has no arguments.
unfoldable pub parsed_as : Option Command → Text → File → Parsed
unfolding strsplit
parsed_as none args f = record { command = Command.invalid; args = []; input = f }
parsed_as (some c) args f = record { command = c; args = strsplit args b' '; input = f }

-- What `parse` makes of its two reads. The line is not read where the word has come to the end of the
-- input.
unfoldable pub parse_of : Bool × Text × File → Bool × Text × File → Parsed
unfolding parsed_as find_command commands
parse_of (more_word, cmd, g) (more_line, args, h) =
    if not more_word
    then record { command = Command.quit; args = []; input = g }
    else if not more_line
    then record { command = Command.quit; args = []; input = h }
    else if is_empty cmd
    then record { command = Command.last; args = []; input = h }
    else parsed_as (find_command cmd commands) args h

unfoldable pub parse : File → Parsed
unfolding getword getline parse_of
parse f = let word = getword f in parse_of word (getline 10 word.2)

-- The members of `CliDebugger`, the session, the standard input, and what has been printed.
-- `unfinished` tells that the fuel of the last command was used up: that is a listing whose addresses
-- have wrapped around, which the program stays in, perhaps for ever.
pub record Repl (W : Type 0) : Type 0 where
  pub cmd : Command
  pub cmdargs : List Text
  pub session : Session W
  pub input : File
  pub output : List Reply
  pub unfinished : Bool

abbrev pub is_last : Command → Bool
is_last Command.last = true
is_last _ = false

abbrev pub announced : Event → List Reply
announced ev = elim ev.event_type [
  | EventType.break ↦ Reply.breakpoint_reached ev.index ∷ Reply.current_instr ev.cpu_st ∷ []
  | EventType.fetch ↦ Reply.current_instr ev.cpu_st ∷ []
]

module _ {W : Type 0} ⦃emu : Emu W⦄ (can_open : Text → Bool) where
  -- The command of this round: an empty line repeats the one before.
  unfoldable pub choose : Parsed → Repl W → Repl W
  choose p r =
      if is_last p.command
      then record r { input = p.input }
      else record r { cmd = p.command; cmdargs = p.args; input = p.input }

  -- The rest of a round: whether the loop is left, and what there is then. Where the fuel of
  -- the command is used up, the model stops, with `unfinished` set.
  unfoldable pub perform : Repl W → Bool × Repl W
  unfolding exec_command minargs_of
  perform r =
      let done = exec_command can_open r.cmd r.cmdargs r.session in
      if ltb (length r.cmdargs) (minargs_of r.cmd)
      then (false, record r { output = r.output ++ (Reply.not_enough r.cmd ∷ []) })
      else (
        done.exits || done.unfinished,
        record r {
          session = done.session;
          output = r.output ++ done.replies;
          unfinished = r.unfinished || done.unfinished;
        },
      )

  unfoldable pub round : Repl W → Bool × Repl W
  unfolding parse choose perform
  round r = perform (choose (parse r.input) r)

  -- The loop, with fuel.
  unfoldable pub repl_loop : ℕ → Repl W → Option (Repl W)
  unfolding round
  repl_loop zero r = none
  repl_loop (suc fuel) r =
      let (exit, r1) = round r in let rest = repl_loop fuel r1 in if exit then some r1 else rest

  unfoldable pub repl : ℕ → Event → Repl W → Option (Repl W)
  unfolding repl_loop
  repl fuel ev r = repl_loop fuel (record r { output = r.output ++ announced ev })
