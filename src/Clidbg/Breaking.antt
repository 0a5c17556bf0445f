-- ===== src/Clidbg/Breaking.antt =====
-- emu/core/clidbg.cpp: the command that sets a breakpoint, and the one that deletes it.
use yanesemu.Prelude.{
  ℕ, ◌<◌, ◌≡◌, ◌∙◌, refl, ap, arith, Bool, true, false, not, ltb, leb, Bool-cases, ◌==◌, ◌&&◌, ◌||◌,
  if◌then◌else◌, lt→ltb, ◌⊎◌, inl, inr, Option, none, some, List, [], ◌∷◌, length, Text,
}
use yanesemu.Util.Strings.{strconv}
use yanesemu.Debugger as D
use yanesemu.Debugger.{Breakpoint, Debugger, Session}
use yanesemu.Debugger.Breaks.{found_last, find_break-last}
use yanesemu.Clidbg.{Reply, Outcome, args_at, optional_arg}
use yanesemu.Clidbg.Exec.{break_range, exec_break, first_char, says}

-- The modes that are accepted.
abbrev pub is_mode : ℕ → Bool
is_mode m = m == b'r' || m == b'w' || m == b'x'

unchanged : (o : Option ℕ) (n : ℕ) → o ≡ found_last o false n
unchanged none n = refl
unchanged (some i) n = refl

module _ {W : Type 0} (s : Session W) where
  -- Nothing is set, and an error is printed.
  abbrev pub Refused : Outcome W → Type 0
  Refused o =
      (o.session ≡ s)
      × (o.exits ≡ false)
      × ((o.replies ≡ Reply.invalid_mode ∷ []) ⊎ (o.replies ≡ Reply.invalid_range ∷ []))

  range-Refused : (mode : ℕ) (start : Option ℕ) → Refused (break_range mode start start s)
  unfolding break_range
  range-Refused mode none = (refl, refl, inr refl)
  range-Refused mode (some a) =
      let equal : leb a a ≡ true = ground arith in rw equal (refl, refl, inr refl)

  mode-Refused :
      (bad : Bool) (o : Outcome W)
      → Refused o
      → Refused (if bad then says (Reply.invalid_mode ∷ []) s else o)
  mode-Refused true o h = (refl, refl, inl refl)
  mode-Refused false o h = h

  -- `break` with an address alone is refused, whatever the address: its end is then its start, and an
  -- end that is not above the start is an invalid range.
  pub exec_break-Refused : (args : List Text) → length args ≡ 2 → Refused (exec_break args s)
  unfolding exec_break
  exec_break-Refused args two =
      let start = strconv 16 (args_at 1 args) in
      let short : ltb 2 (length args) ≡ false = ground arith in
      let no_end : optional_arg 2 args start ≡ start =
        ap (λ (c : Bool). if c then strconv 16 (args_at 2 args) else start) short in
      let mode = first_char (args_at 0 args) in
      rw no_end (mode-Refused _ (break_range mode start start s) (range-Refused mode start))

  accepted :
      (m : ℕ)
      → is_mode m ≡ true
      → (o : Outcome W)
      → (if false || (not (m == b'r') && not (m == b'w') && not (m == b'x'))
          then says (Reply.invalid_mode ∷ []) s
          else o)
        ≡ o
  accepted m ok o = ground arith

  ordered : (a b : ℕ) (x y : Outcome W) → (if leb b a then x else y) ≡ (if ltb a b then y else x)
  ordered a b x y = ground arith

  with_range :
      (mode a b : ℕ) (args : List Text)
      → args_at 0 args ≡ mode ∷ []
      → is_mode mode ≡ true
      → 2 < length args
      → strconv 16 (args_at 1 args) ≡ some a
      → strconv 16 (args_at 2 args) ≡ some b
      → exec_break args s ≡ (
          if ltb a b
          then says
              (Reply.breakpoint_set (length s.dbg.breakvec) a b ∷ [])
              (D.set_dbg (D.setbreak (record { start = a; end = b; mode = mode }) s.dbg).1 s)
          else says (Reply.invalid_range ∷ []) s)
  unfolding exec_break break_range D.setbreak
  with_range mode a b args first ok more ha hb =
      let has_end : optional_arg 2 args (strconv 16 (args_at 1 args)) ≡ some b =
        ap (λ (c : Bool). if c then strconv 16 (args_at 2 args) else strconv 16 (args_at 1 args))
          (lt→ltb 2 (length args) more)
        ∙ hb in
      let start = strconv 16 (args_at 1 args) in
      let end = optional_arg 2 args start in
      ap
        (λ (t : Text).
          let m = first_char t in
          if not (length t == 1) || (not (m == b'r') && not (m == b'w') && not (m == b'x'))
          then says (Reply.invalid_mode ∷ []) s
          else break_range m start end s)
        first
      ∙ accepted mode ok (break_range mode start end s)
      ∙ ap (λ (o : Option ℕ). break_range mode o end s) ha
      ∙ ap (λ (o : Option ℕ). break_range mode (some a) o s) has_end
      ∙ ordered a b _ _

  -- `break` with a mode and two addresses: the debugger, which stays in its loop, then finds for an
  -- access the breakpoint that it found before, and if it found none, the new one, exactly if the
  -- access has that mode and an address from the first to the second, and the second is above the
  -- first. It prints the index of the new breakpoint, or that the range is invalid.
  pub find_break-exec_break :
      (mode a b addr m : ℕ) (args : List Text)
      → args_at 0 args ≡ mode ∷ []
      → is_mode mode ≡ true
      → 2 < length args
      → strconv 16 (args_at 1 args) ≡ some a
      → strconv 16 (args_at 2 args) ≡ some b
      → let o = exec_break args s in
        (o.exits ≡ false)
        × (D.find_break addr m 0 o.session.dbg.breakvec
            ≡ elim (D.find_break addr m 0 s.dbg.breakvec) [
              | some i ↦ some i
              | none ↦
                  if ltb a b && (mode == m && leb a addr && leb addr b)
                  then some (length s.dbg.breakvec)
                  else none
            ])
        × (o.replies
            ≡ (if ltb a b
                then Reply.breakpoint_set (length s.dbg.breakvec) a b
                else Reply.invalid_range)
              ∷ [])
  unfolding D.setbreak D.is_hit
  find_break-exec_break mode a b addr m args first ok more ha hb =
      rw (with_range mode a b args first ok more ha hb) (elim (Bool-cases (ltb a b)) [
        | inl above ↦
            let p : Breakpoint = record { start = a; end = b; mode = mode } in
            let test : D.is_hit addr m p ≡ (ltb a b && (mode == m && leb a addr && leb addr b)) =
              rw above refl in
            let known = D.find_break addr m 0 s.dbg.breakvec in
            rw above (
              refl,
              find_break-last addr m s.dbg.breakvec p
                  ∙ ap (λ (h : Bool). found_last known h (length s.dbg.breakvec)) test,
              refl,
            )
        | inr empty ↦
            let known = D.find_break addr m 0 s.dbg.breakvec in
            let test : false ≡ (ltb a b && (mode == m && leb a addr && leb addr b)) =
              rw empty refl in
            rw empty (
              refl,
              unchanged known (length s.dbg.breakvec)
                  ∙ ap (λ (h : Bool). found_last known h (length s.dbg.breakvec)) test,
              refl,
            )
      ])
