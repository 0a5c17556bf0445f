-- ===== src/Clidbg/Repl/Ends.antt =====
-- emu/core/clidbg.cpp: `repl` ends on every input.
use yanesemu.Prelude.{
  ℕ, zero, suc, ◌+◌, ◌<◌, ◌≤◌, ◌≡◌, ◌∙◌, refl, ap, arith, Bool, Bool-cases, true, false, not, ltb,
  ◌==◌, ◌⊎◌, inl, inr, if◌then◌else◌, Option, none, some, [], ◌∷◌, length, Text,
}
use yanesemu.Util.File.{File, drop, is_empty, skip_space, read_until, getword, getline}
use yanesemu.Debugger.{Event, Emu}
use yanesemu.Clidbg.{Command, minargs_of, commands, find_command}
use yanesemu.Clidbg.Exec.{exec_command}
use yanesemu.Clidbg.Repl as R
use yanesemu.Clidbg.Repl.Endless.{ReachesEnd, exec_command-Ends}
use yanesemu.Clidbg.Repl.{Parsed, Repl, parse, parsed_as}

skip_space-le : (s : Text) → length (skip_space s) ≤ length s
unfolding skip_space
skip_space-le [] = omega arith
skip_space-le (c ∷ s) = ground (arith, skip_space-le s)

read_until-le : (stops : ℕ → Bool) (s : Text) → length (read_until stops s).1 ≤ length s
unfolding read_until
read_until-le stops [] = omega arith
read_until-le stops (c ∷ s) = ground (arith, read_until-le stops s)

drop-lt : (s : Text) → not (is_empty s) ≡ true → length (drop 1 s) < length s
drop-lt [] h = cc
drop-lt (c ∷ s) h = omega arith

getword-le : (f : File) → length (getword f).2.input ≤ length f.input
unfolding getword
getword-le f = omega (arith, skip_space-le f.input, read_until-le _ (skip_space f.input))

-- A line that has a delimiter makes the input shorter.
getline-lt :
    (delim : ℕ) (f : File)
    → (getline delim f).0 ≡ true
    → length (getline delim f).2.input < length f.input
unfolding getline
getline-lt delim f more =
    let rest = (read_until (λ c. c == delim) (skip_space f.input)).1 in
    omega (
      arith,
      skip_space-le f.input,
      read_until-le (λ c. c == delim) (skip_space f.input),
      drop-lt rest more,
    )

-- What is read leaves, or makes the input shorter.
abbrev Shrinks : File → Parsed → Type 0
Shrinks f p = (p.command ≡ Command.quit) ⊎ (length p.input.input < length f.input)

input-parsed_as : (o : Option Command) (args : Text) (f : File) → (parsed_as o args f).input ≡ f
unfolding parsed_as
input-parsed_as none args f = refl
input-parsed_as (some c) args f = refl

pick :
    (f : File) (b1 b2 b3 : Bool) (p1 p2 p3 p4 : Parsed)
    → Shrinks f p1
    → Shrinks f p2
    → (b2 ≡ false → Shrinks f p3)
    → (b2 ≡ false → Shrinks f p4)
    → Shrinks f (if b1 then p1 else if b2 then p2 else if b3 then p3 else p4)
pick f true b2 b3 p1 p2 p3 p4 h1 h2 h3 h4 = h1
pick f false true b3 p1 p2 p3 p4 h1 h2 h3 h4 = h2
pick f false false true p1 p2 p3 p4 h1 h2 h3 h4 = h3 refl
pick f false false false p1 p2 p3 p4 h1 h2 h3 h4 = h4 refl

not-false : (b : Bool) → not b ≡ false → b ≡ true
not-false true e = refl
not-false false e = cc

parse-Shrinks : (f : File) → Shrinks f (parse f)
unfolding parse
parse-Shrinks f =
    let g = (getword f).2 in
    let line = getline 10 g in
    let shorter : not line.0 ≡ false → length line.2.input < length f.input =
      λ more. omega (arith, getword-le f, getline-lt 10 g (not-false line.0 more)) in
    pick f (not (getword f).0) (not line.0) (is_empty (getword f).1) _ _ _
      (parsed_as (find_command (getword f).1 commands) line.1 line.2) (inl refl) (inl refl)
      (λ more. inr (shorter more))
      (λ more.
        inr
          (rw (input-parsed_as (find_command (getword f).1 commands) line.1 line.2) (shorter more)))

-- Where the last command has not ended, it is a listing that reaches to $FFFD at least.
abbrev pub Stays : {W : Type 0} → Repl W → Type 0
Stays t = t.unfinished ≡ true → (t.cmd ≡ Command.disblock) × ReachesEnd t.cmdargs

-- A round that goes on has executed a command that has ended.
abbrev Sound : {W : Type 0} → Bool × Repl W → Type 0
Sound (exit, t) = (exit ≡ false → t.unfinished ≡ false) × Stays t

Sound-if :
    {W : Type 0} (b : Bool) (p q : Bool × Repl W) → Sound p → Sound q → Sound (if b then p else q)
Sound-if true p q hp hq = hp
Sound-if false p q hp hq = hq

module _ {W : Type 0} ⦃emu : Emu W⦄ (can_open : Text → Bool) where
  -- A round leaves the loop, or makes the input shorter.
  abbrev Advances : Repl W → Bool × Repl W → Type 0
  Advances r done = (done.0 ≡ true) ⊎ (length done.1.input.input < length r.input.input)

  perform_input : (r : Repl W) → (R.perform can_open r).1.input ≡ r.input
  unfolding R.perform
  perform_input r = ground arith

  perform_quit : (r : Repl W) → r.cmd ≡ Command.quit → (R.perform can_open r).0 ≡ true
  unfolding R.perform exec_command minargs_of
  perform_quit r e =
      let no_args : ltb (length r.cmdargs) 0 ≡ false = ground arith in
      ap (λ (c : Command). (R.perform can_open (record r { cmd = c })).0) e ∙ rw no_args refl

  choose_input : (p : Parsed) (r : Repl W) → (R.choose can_open p r).input ≡ p.input
  unfolding R.choose
  choose_input p r = ground arith

  choose_unfinished : (p : Parsed) (r : Repl W) → (R.choose can_open p r).unfinished ≡ r.unfinished
  unfolding R.choose
  choose_unfinished p r = ground arith

  choose_quit :
      (p : Parsed) (r : Repl W)
      → p.command ≡ Command.quit
      → (R.choose can_open p r).cmd ≡ Command.quit
  unfolding R.choose
  choose_quit p r e = ap (λ (c : Command). (R.choose can_open (record p { command = c }) r).cmd) e

  round-Advances : (r : Repl W) → Advances r (R.round can_open r)
  unfolding R.round
  round-Advances r =
      let p = parse r.input in
      let chosen = R.choose can_open p r in
      let same : (R.perform can_open chosen).1.input ≡ p.input =
        perform_input chosen ∙ choose_input p r in
      elim (parse-Shrinks r.input) [
        | inl quits ↦ inl (perform_quit chosen (choose_quit p r quits))
        | inr shorter ↦ inr (rw same shorter)
      ]

  perform-Sound : (r : Repl W) → r.unfinished ≡ false → Sound (R.perform can_open r)
  unfolding R.perform
  perform-Sound r fine =
      Sound-if (ltb (length r.cmdargs) (minargs_of r.cmd)) _ _ ((λ e. fine), λ e. cc)
        (elim (exec_command-Ends can_open r.cmdargs r.session r.cmd) [
          | inl ended ↦ let still = ended.ends in ((λ e. ground arith), λ e. ground arith)
          | inr stays ↦ ((λ e. ground arith), λ e. stays)
        ])

  round-Sound : (r : Repl W) → r.unfinished ≡ false → Sound (R.round can_open r)
  unfolding R.round R.choose
  round-Sound r fine =
      perform-Sound (R.choose can_open (parse r.input) r)
        (choose_unfinished (parse r.input) r ∙ fine)

  -- The loop has ended within the fuel, or stays in a listing.
  abbrev Ended : Option (Repl W) → Type 0
  Ended o = (r : Repl W) × (o ≡ some r) × Stays r

  one_round :
      (exit : Bool) (r1 : Repl W) (rest : Option (Repl W))
      → Stays r1
      → ((exit ≡ true) ⊎ (exit ≡ false → Ended rest))
      → Ended (if exit then some r1 else rest)
  one_round true r1 rest stays h = (r1, refl, stays)
  one_round false r1 rest stays (inl e) = cc
  one_round false r1 rest stays (inr h) = h refl

  loop-Ended :
      (fuel : ℕ) (r : Repl W)
      → length r.input.input < fuel
      → r.unfinished ≡ false
      → Ended (R.repl_loop can_open fuel r)
  unfolding R.repl_loop
  loop-Ended zero r enough fine = absurd (omega arith)
  loop-Ended (suc fuel) r enough fine =
      let r1 = (R.round can_open r).1 in
      let sound = round-Sound r fine in
      one_round (R.round can_open r).0 r1 (R.repl_loop can_open fuel r1) sound.1
        (elim (round-Advances r) [
          | inl exits ↦ inl exits
          | inr shorter ↦ inr (λ goes_on. loop-Ended fuel r1 (omega arith) (sound.0 goes_on))
        ])

  -- `repl` ends on every input, with as many rounds as the input has characters and one more: each
  -- round takes a line or leaves, and the end of the input leaves. All its commands end, or the last one
  -- that it comes to is the listing of a block that reaches to $FFFD at least, which may not end.
  pub repl-ends :
      (ev : Event) (r : Repl W)
      → r.unfinished ≡ false
      → (t : Repl W) × (R.repl can_open (length r.input.input + 1) ev r ≡ some t)
        × ((t.unfinished ≡ false) ⊎ ((t.cmd ≡ Command.disblock) × ReachesEnd t.cmdargs))
  unfolding R.repl
  repl-ends ev r fine =
      let (t, e, stays) = loop-Ended (length r.input.input + 1) _ (omega arith) fine in
      (
        t,
        e,
        elim (Bool-cases t.unfinished) [ inl stuck ↦ inr (stays stuck) | inr ended ↦ inl ended ],
      )
