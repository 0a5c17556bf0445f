-- ===== src/Clidbg/Repl/Reading.antt =====
-- emu/core/clidbg.cpp: `parse` of a line that is a command with its arguments.
use yanesemu.Prelude.{
  ℕ, ◌≡◌, ◌∙◌, refl, ap, arith, Bool, true, false, not, if◌then◌else◌, Option, some, List, [], ◌∷◌,
  ◌++◌, Text, all_of,
}
use yanesemu.Util.File.Reading.{
  starts_plain, skip_space-plain, skip_space-blanks, read_until-stop, plain_line, getline-line,
}
use yanesemu.Util.File.{
  File, is_empty, is_space, is_word_end, skip_space, read_until, getword, getline,
}
use yanesemu.Util.Strings.{terminate, lacks, all_lack, last_word, strsplit-terminate}
use yanesemu.Clidbg.{Command, commands, find_command}
use yanesemu.Clidbg.Repl.{Parsed, parse, parse_of, parsed_as}

-- The text is empty or does not begin with a blank.
abbrev pub is_word : Text → Bool
is_word [] = false
is_word (c ∷ s) = all_of (λ d. not (is_word_end d)) (c ∷ s)

word_plain : (w s : Text) → is_word w ≡ true → starts_plain (w ++ s) ≡ true
unfolding is_word_end is_space
word_plain [] s h = cc
word_plain (c ∷ w) s h = ground arith

word_all : (w : Text) → is_word w ≡ true → all_of (λ d. not (is_word_end d)) w ≡ true
word_all [] h = cc
word_all (c ∷ w) h = h

word_some : (w : Text) → is_word w ≡ true → is_empty w ≡ false
word_some [] h = cc
word_some (c ∷ w) h = refl

module _ (f : File) (blanks cmd line more : Text) where
  getword-word :
      (c : ℕ) (rest : Text)
      → all_of is_space blanks ≡ true
      → is_word cmd ≡ true
      → is_word_end c ≡ true
      → f.input ≡ blanks ++ (cmd ++ (c ∷ rest))
      → getword f ≡ (true, cmd, record f { input = c ∷ rest })
  unfolding getword
  getword-word c rest hb hw here e =
      ap
        (λ (s : Text).
          let r : Bool × Text × File = (
            not (is_empty (read_until is_word_end s).1),
            (read_until is_word_end s).0,
            record f { input = (read_until is_word_end s).1 },
          ) in
          r)
        (ap skip_space e ∙ skip_space-blanks blanks (cmd ++ (c ∷ rest)) hb (word_plain cmd _ hw))
      ∙ ap
          (λ (p : Text × Text).
            let r : Bool × Text × File = (not (is_empty p.1), p.0, record f { input = p.1 }) in r)
          (read_until-stop is_word_end cmd rest c (word_all cmd hw) here)

  parse_line :
      all_of is_space blanks ≡ true
      → is_word cmd ≡ true
      → starts_plain line ≡ true
      → lacks 10 line ≡ true
      → f.input ≡ blanks ++ (cmd ++ (b' ' ∷ (line ++ (10 ∷ more))))
      → parse f ≡ parsed_as (find_command cmd commands) line (record f { input = more })
  unfolding parse parse_of is_word_end skip_space is_space
  parse_line hb hw hs hl e =
      ap (λ (word : Bool × Text × File). parse_of word (getline 10 word.2))
        (getword-word b' ' (line ++ (10 ∷ more)) hb hw refl e)
      ∙ ap (parse_of (true, cmd, record f { input = b' ' ∷ (line ++ (10 ∷ more)) })) (
          getline-line (record f { input = b' ' ∷ (line ++ (10 ∷ more)) }) line more hl
            (skip_space-plain (line ++ (10 ∷ more)) (plain_line line more hs)))
      ∙ ap
          (λ (b : Bool).
            if b
            then record { command = Command.last; args = []; input = record f { input = more } }
            else parsed_as (find_command cmd commands) line (record f { input = more }))
          (word_some cmd hw)

-- A line with a command and its arguments, blanks before the command, and one blank behind each of
-- the arguments but the last: `parse` gives the command that has this name or abbreviation, with
-- exactly these arguments, and leaves what comes behind the line.
pub parse-args :
    (f : File) (blanks cmd more w : Text) (ws : List Text) (c : Command)
    → all_of is_space blanks ≡ true
    → is_word cmd ≡ true
    → find_command cmd commands ≡ some c
    → all_lack b' ' ws ≡ true
    → lacks b' ' w ≡ true
    → starts_plain (terminate b' ' ws ++ w) ≡ true
    → lacks 10 (terminate b' ' ws ++ w) ≡ true
    → f.input ≡ blanks ++ (cmd ++ (b' ' ∷ ((terminate b' ' ws ++ w) ++ (10 ∷ more))))
    → parse f ≡ record { command = c; args = ws ++ last_word w; input = record f { input = more } }
unfolding parsed_as
parse-args f blanks cmd more w ws c hb hw found hws hlast hs hl e =
    let line = terminate b' ' ws ++ w in
    let g : File = record f { input = more } in
    parse_line f blanks cmd line more hb hw hs hl e
    ∙ ap (λ (o : Option Command). parsed_as o line g) found
    ∙ ap (λ (l : List Text). let r : Parsed = record { command = c; args = l; input = g } in r)
        (strsplit-terminate b' ' ws w hws hlast)
