-- ===== src/Debugger/Backtrace.antt =====
-- emu/core/debugger.cpp: the backtrace over a run of instructions whose calls return.
use yanesemu.Prelude.{◌≡◌, ◌∙◌, refl, ap, arith, Bool, true, not, ◌==◌, ◌||◌, List, [], ◌∷◌, ◌++◌}
use yanesemu.Cpu.State.{Status}
use yanesemu.Debugger as D
use yanesemu.Debugger.{Debugger}

-- An instruction that is no call, no jump and no return from a call.
abbrev pub is_straight : Status → Bool
is_straight st = not (st.id == 0x20 || st.id == 0x4c || st.id == 0x6c || st.id == 0x60)

-- The instructions that a program executes, where each return matches a call and no jump is taken.
pub data Balanced : List Status → Type 0 where
  done : Balanced []
  straight :
      (st : Status) (rest : List Status)
      → is_straight st ≡ true
      → Balanced rest
      → Balanced (st ∷ rest)
  call :
      (jsr rts : Status) (body rest : List Status)
      → jsr.id ≡ 0x20
      → rts.id ≡ 0x60
      → Balanced body
      → Balanced rest
      → Balanced (jsr ∷ (body ++ (rts ∷ rest)))

-- The calls of `update_backtrace` for the instructions in turn.
unfoldable pub update_all : List Status → Debugger → Debugger
unfolding D.update_backtrace
update_all [] d = d
update_all (st ∷ sts) d = update_all sts (D.update_backtrace st d)

update_all-append :
    (xs ys : List Status) (d : Debugger) → update_all (xs ++ ys) d ≡ update_all ys (update_all xs d)
unfolding update_all
update_all-append [] ys d = refl
update_all-append (x ∷ xs) ys d = update_all-append xs ys (D.update_backtrace x d)

update_straight : (st : Status) (d : Debugger) → is_straight st ≡ true → D.update_backtrace st d ≡ d
unfolding D.update_backtrace
update_straight st d h = ground arith

update_call :
    (st : Status) (d : Debugger)
    → st.id ≡ 0x20
    → D.update_backtrace st d ≡ record d { btrace = st ∷ d.btrace }
unfolding D.update_backtrace
update_call st d h = rw h refl

update_return :
    (jsr rts : Status) (d : Debugger)
    → jsr.id ≡ 0x20
    → rts.id ≡ 0x60
    → D.update_backtrace rts (record d { btrace = jsr ∷ d.btrace }) ≡ d
unfolding D.update_backtrace D.pop_call
update_return jsr rts d hj hr = rw (hr, hj) refl

-- Over a run of instructions in which each return matches a call and no jump is taken, the backtrace
-- is at the end what it was at the beginning, whatever that was, and `back` is never called on an
-- empty vector.
pub update_all-Balanced : {sts : List Status} → Balanced sts → (d : Debugger) → update_all sts d ≡ d
unfolding update_all
update_all-Balanced Balanced.done d = refl
update_all-Balanced (Balanced.straight st rest h b) d =
    rw (update_straight st d h) (update_all-Balanced b d)
update_all-Balanced (Balanced.call jsr rts body rest hj hr b c) d =
    let inside : Debugger = record d { btrace = jsr ∷ d.btrace } in
    ap (update_all (body ++ (rts ∷ rest))) (update_call jsr d hj)
    ∙ update_all-append body (rts ∷ rest) inside
    ∙ ap (update_all (rts ∷ rest)) (update_all-Balanced b inside)
    ∙ ap (update_all rest) (update_return jsr rts d hj hr)
    ∙ update_all-Balanced c d
