-- ===== src/Util/File/Reading.antt =====
-- emu/util/file.cpp: what `getline` reads of an input that begins with a line.
use yanesemu.Prelude.{
  ℕ, ◌≡◌, ◌∙◌, refl, ap, arith, Bool, true, false, not, ◌==◌, [], ◌∷◌, ◌++◌, Text, all_of,
}
use yanesemu.Util.File.{File, drop, is_empty, is_space, skip_space, read_until, getline}
use yanesemu.Util.Strings.{lacks}

abbrev pub starts_plain : Text → Bool
starts_plain [] = true
starts_plain (c ∷ s) = not (is_space c)

pub skip_space-plain : (s : Text) → starts_plain s ≡ true → skip_space s ≡ s
unfolding skip_space
skip_space-plain [] h = refl
skip_space-plain (c ∷ s) h = ground arith

pub skip_space-blanks :
    (blanks s : Text)
    → all_of is_space blanks ≡ true
    → starts_plain s ≡ true
    → skip_space (blanks ++ s) ≡ s
unfolding skip_space
skip_space-blanks [] s hb h = skip_space-plain s h
skip_space-blanks (c ∷ blanks) s hb h = ground (arith, skip_space-blanks blanks s)

pub read_until-stop :
    (stops : ℕ → Bool) (w rest : Text) (c : ℕ)
    → all_of (λ d. not (stops d)) w ≡ true
    → stops c ≡ true
    → read_until stops (w ++ (c ∷ rest)) ≡ (w, c ∷ rest)
unfolding read_until
read_until-stop stops [] rest c h here = rw here refl
read_until-stop stops (d ∷ w) rest c h here =
    let later = read_until-stop stops w rest c (ground arith) here in
    let no_stop : stops d ≡ false = ground arith in rw (no_stop, later) refl

pub plain_line :
    (line more : Text) → starts_plain line ≡ true → starts_plain (line ++ (10 ∷ more)) ≡ true
unfolding is_space
plain_line [] more h = refl
plain_line (c ∷ line) more h = h

pub getline-line :
    (f : File) (line more : Text)
    → lacks 10 line ≡ true
    → skip_space f.input ≡ line ++ (10 ∷ more)
    → getline 10 f ≡ (true, line, record f { input = more })
unfolding getline
getline-line f line more hl e =
    ap
      (λ (s : Text).
        let p = read_until (λ c. c == 10) s in
        let r : Bool × Text × File = (not (is_empty p.1), p.0, record f { input = drop 1 p.1 }) in
        r)
      e
    ∙ ap
        (λ (p : Text × Text).
          let r : Bool × Text × File = (not (is_empty p.1), p.0, record f { input = drop 1 p.1 }) in
          r)
        (read_until-stop (λ c. c == 10) line more 10 hl refl)
