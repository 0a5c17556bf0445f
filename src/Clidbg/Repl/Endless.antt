-- ===== src/Clidbg/Repl/Endless.antt =====
-- emu/core/clidbg.cpp: which commands end within their fuel.
use yanesemu.Prelude.{
  ℕ, ◌+◌, ◌-◌, ◌<◌, ◌≤◌, ◌^◌, ◌≡◌, refl, arith, Bool, true, false, ltb, leb, ◌⊎◌, inl, inr,
  if◌then◌else◌, Bool-cases, Option, none, some, List, [], ◌∷◌, Text,
}
use yanesemu.Util.Strings.{strconv, hex_digit, scan_hex}
use yanesemu.Instr.Block.{disassemble_block, disassemble_block-ends}
use yanesemu.Debugger as D
use yanesemu.Debugger.{Session, Emu}
use yanesemu.Clidbg.{Command, Reply, Outcome, args_at, both, print_block}
use yanesemu.Clidbg.Exec.{
  says, listing_lines, break_range, exec_break, exec_delbreak, exec_list_break, exec_backtrace,
  exec_disassemble, exec_runframe, exec_read, exec_write, exec_block, exec_disblock, exec_status,
  exec_trace, exec_command,
}
use yanesemu.Clidbg.Blocks.{print_block-reads}

strconv-lt : (bits : ℕ) (t : Text) (v : ℕ) → strconv bits t ≡ some v → v < 2 ^ bits
unfolding strconv
strconv-lt bits [] v e = cc
strconv-lt bits (c ∷ s) v e = of_digit (hex_digit c) e
  where
    of_digit :
        (o : Option ℕ)
        → elim o [
          | none ↦ none
          | some d ↦ let value = scan_hex d s in if ltb value (2 ^ bits) then some value else none
        ]
          ≡ some v
        → v < 2 ^ bits
    of_digit none e = cc
    of_digit (some d) e = ground arith

-- The second argument is $FFFD at least.
abbrev pub ReachesEnd : List Text → Type 0
ReachesEnd args = (b : ℕ) × (strconv 16 (args_at 1 args) ≡ some b) × (0xfffd ≤ b)

module _ {W : Type 0} where
  -- The command ends within its fuel.
  pub record Ends (o : Outcome W) : Type 0 where
    pub ends : o.unfinished ≡ false

  says-Ends : (l : List Reply) (s : Session W) → Ends (says l s)
  says-Ends l s = record { ends = refl }

  if-Ends : (b : Bool) (o p : Outcome W) → Ends o → Ends p → Ends (if b then o else p)
  if-Ends true o p ho hp = ho
  if-Ends false o p ho hp = hp

  both-Ends :
      (a b : Option ℕ) (o : Outcome W) (f : ℕ → ℕ → Outcome W)
      → Ends o
      → ((x y : ℕ) → a ≡ some x → b ≡ some y → Ends (f x y))
      → Ends (both a b o f)
  both-Ends none b o f ho hf = ho
  both-Ends (some x) none o f ho hf = ho
  both-Ends (some x) (some y) o f ho hf = hf x y refl refl

  option-Ends :
      (a : Option ℕ) (o : Outcome W) (f : ℕ → Outcome W)
      → Ends o
      → ((x : ℕ) → Ends (f x))
      → Ends (elim a [ none ↦ o | some x ↦ f x ])
  option-Ends none o f ho hf = ho
  option-Ends (some x) o f ho hf = hf x

module _ {W : Type 0} ⦃emu : Emu W⦄ (can_open : Text → Bool) (args : List Text)
    (s : Session W) where
  break-Ends : Ends (exec_break args s)
  unfolding exec_break break_range
  break-Ends = record { ends = ground arith }

  delbreak-Ends : Ends (exec_delbreak args s)
  unfolding exec_delbreak
  delbreak-Ends = record { ends = ground arith }

  list_break-Ends : Ends (exec_list_break s)
  unfolding exec_list_break
  list_break-Ends = record { ends = ground arith }

  backtrace-Ends : Ends (exec_backtrace s)
  unfolding exec_backtrace
  backtrace-Ends = record { ends = ground arith }

  disassemble-Ends : Ends (exec_disassemble args s)
  unfolding exec_disassemble
  disassemble-Ends = record { ends = ground arith }

  read-Ends : Ends (exec_read can_open args s)
  unfolding exec_read
  read-Ends = record { ends = ground arith }

  write-Ends : Ends (exec_write can_open args s)
  unfolding exec_write
  write-Ends = record { ends = ground arith }

  block-Ends : Ends (exec_block can_open args s)
  unfolding exec_block
  block-Ends =
      of_both (strconv 16 (args_at 0 args)) (strconv 16 (args_at 1 args))
        (strconv-lt 16 (args_at 1 args))
    where
      of_both :
          (oa ob : Option ℕ)
          → ((b : ℕ) → ob ≡ some b → b < 2 ^ 16)
          → Ends (
              both oa ob (says (Reply.invalid_range ∷ []) s) (λ start end.
                if leb end start
                then says (Reply.invalid_range ∷ []) s
                else elim (print_block D.read (end - start + 1) start end 0 s) [
                  | none ↦ record (says [] s) { unfinished = true }
                  | some r ↦ says r.0 r.1
                ]))
      of_both none ob fits = record { ends = refl }
      of_both (some a) none fits = record { ends = refl }
      of_both (some a) (some b) fits = elim (Bool-cases (leb b a)) [
        | inl empty ↦ rw empty (record { ends = refl })
        | inr order ↦
            let (r, printed, bytes, left) =
              print_block-reads D.read a b s (ground arith) (fits b refl) in
            rw (order, printed) (record { ends = refl })
      ]

  disblock-Ends : Ends (exec_disblock can_open args s) ⊎ ReachesEnd args
  unfolding exec_disblock
  disblock-Ends = of_both (strconv 16 (args_at 0 args)) (strconv 16 (args_at 1 args)) refl
    where
      of_both :
          (oa ob : Option ℕ)
          → strconv 16 (args_at 1 args) ≡ ob
          → Ends (
              both oa ob (says (Reply.invalid_range ∷ []) s) (λ start end.
                if leb end start
                then says (Reply.invalid_range ∷ []) s
                else elim (disassemble_block D.read (end - start + 2) start end s) [
                  | none ↦ record (says [] s) { unfinished = true }
                  | some r ↦ says (listing_lines r.0) r.1
                ]))
            ⊎ ReachesEnd args
      of_both none ob e = inl (record { ends = refl })
      of_both (some a) none e = inl (record { ends = refl })
      of_both (some a) (some b) e = elim (Bool-cases (leb b a)) [
        | inl empty ↦ inl (rw empty (record { ends = refl }))
        | inr order ↦ elim (Bool-cases (leb 0xfffd b)) [
          | inl far ↦ inr (b, e, ground arith)
          | inr near ↦
              let (r, listed, lines) =
                disassemble_block-ends D.read (b - a + 2) a b s (ground arith) (omega arith)
                  (ground arith) in
              inl (rw (order, listed) (record { ends = refl }))
        ]
      ]

  -- Every command ends but perhaps a listing of a block that reaches to $FFFD at least.
  pub exec_command-Ends :
      (cmd : Command)
      → Ends (exec_command can_open cmd args s) ⊎ ((cmd ≡ Command.disblock) × ReachesEnd args)
  unfolding exec_command exec_runframe exec_status exec_trace
  exec_command-Ends Command.break = inl break-Ends
  exec_command-Ends Command.delbreak = inl delbreak-Ends
  exec_command-Ends Command.list_break = inl list_break-Ends
  exec_command-Ends Command.backtrace = inl backtrace-Ends
  exec_command-Ends Command.disassemble = inl disassemble-Ends
  exec_command-Ends Command.status = inl (record { ends = ground arith })
  exec_command-Ends Command.read_addr = inl read-Ends
  exec_command-Ends Command.write_addr = inl write-Ends
  exec_command-Ends Command.block = inl block-Ends
  exec_command-Ends Command.disblock = elim disblock-Ends [
    | inl ends ↦ inl ends
    | inr far ↦ inr (refl, far)
  ]
  exec_command-Ends Command.trace = inl (record { ends = ground arith })
  exec_command-Ends _ = inl (record { ends = refl })
