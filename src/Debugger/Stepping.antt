-- ===== src/Debugger/Stepping.antt =====
-- emu/core/debugger.cpp: where `fetch_callback` stops while an address to stop at is set.
use yanesemu.Prelude.{
  if_false, Bool-cases, inl, inr, ◌+◌, ◌*◌, ◌%◌, ◌^◌, bit_or, arith, ℕ, ◌<◌, ◌≡◌, ◌∙◌, sym, ◌⊎◌,
  refl, Bool, true, false, not, ◌==◌, ◌&&◌, bit_and, leb, if◌then◌else◌, List, [], ◌∷◌, ap, ◌||◌,
  Option, none, some,
}
use yanesemu.Prelude.Bits.{bit_and_mask, bit_or_fields}
use yanesemu.Cpu.State.{Status}
use yanesemu.Debugger as D
use yanesemu.Debugger.{Debugger, Session, Emu, Event, EventType}

-- From `d` to `e` what decides whether the debugger stops is the same.
pub record KeepsStops (d e : Debugger) : Type 0 where
  pub nextstop : e.nextstop ≡ d.nextstop
  pub breakvec : e.breakvec ≡ d.breakvec

choose :
    (b : Bool) {d e f : Debugger}
    → KeepsStops d e
    → KeepsStops d f
    → KeepsStops d (if b then e else f)
choose true p q = p
choose false p q = q

pop_call-KeepsStops : (l : List Status) (d : Debugger) → KeepsStops d (D.pop_call l d)
unfolding D.pop_call
pop_call-KeepsStops [] d = record { nextstop = refl; breakvec = refl }
pop_call-KeepsStops (st ∷ l) d =
    choose (st.id == 0x20) (record { nextstop = refl; breakvec = refl })
      (record { nextstop = refl; breakvec = refl })

update_backtrace-KeepsStops : (st : Status) (d : Debugger) → KeepsStops d (D.update_backtrace st d)
unfolding D.update_backtrace
update_backtrace-KeepsStops st d =
    choose (st.id == 0x20 || st.id == 0x4c || st.id == 0x6c)
      (record { nextstop = refl; breakvec = refl })
      (choose (st.id == 0x60) (pop_call-KeepsStops d.btrace d)
        (record { nextstop = refl; breakvec = refl }))

module _ {W : Type 0} ⦃emu : Emu W⦄ where
  traced_if :
      (b : Bool) {d : Debugger} (s t : Session W)
      → KeepsStops d s.dbg
      → KeepsStops d t.dbg
      → KeepsStops d (if b then s else t).dbg
  traced_if true s t p q = p
  traced_if false s t p q = q

  traced-KeepsStops :
      (st : Status) (mode : ℕ) (s : Session W) → KeepsStops s.dbg (D.traced st mode s).dbg
  unfolding D.traced D.trace
  traced-KeepsStops st mode s =
      let kept = update_backtrace-KeepsStops st s.dbg in
      traced_if (mode == b'x') _ _
        (traced_if (not (D.update_backtrace st s.dbg).tracing) _ _ kept kept)
        (record { nextstop = refl; breakvec = refl })

module _ {W : Type 0} ⦃emu : Emu W⦄ (callback : Event → Session W → Session W) (s : Session W)
    (st : Status) where
  unhit :
      (addr mode stop : ℕ)
      → emu.callback ≡ some callback
      → s.dbg.quit ≡ false
      → s.dbg.nextstop ≡ some stop
      → D.find_break addr mode 0 s.dbg.breakvec ≡ none
      → let t = D.traced st mode s in
        D.fetch_callback st addr mode s ≡ (
          if mode == b'r' && leb 0xfffa addr && bit_and addr 1 == 0
          then D.enter_handler addr t
          else if mode == b'x' && addr == stop
          then callback
              (record { event_type = EventType.fetch; cpu_st = st; index = 0 })
              (D.set_dbg (D.continue_exec t.dbg) t)
          else t)
  unfolding D.fetch_callback D.watch D.report D.stop_at
  unhit addr mode stop registered running n b =
      let t = D.traced st mode s in
      let kept = traced-KeepsStops st mode s in
      let no_hit : D.find_break addr mode 0 t.dbg.breakvec ≡ none =
        ap (D.find_break addr mode 0) kept.breakvec ∙ b in
      if_false s.dbg.quit s _ running
      ∙ ap
          (λ (o : Option (Event → Session W → Session W)). elim o [
            | none ↦ s
            | some f ↦ D.watch f st addr mode s
          ])
          registered
      ∙ ap
          (λ (o : Option ℕ).
            let u = D.report callback st o t in D.stop_at callback st u.dbg.nextstop addr mode u)
          no_hit
      ∙ ap (λ (o : Option ℕ). D.stop_at callback st o addr mode t) (kept.nextstop ∙ n)

-- The low bytes of the three interrupt vectors.
abbrev pub is_vector : ℕ → Bool
is_vector addr = addr == 0xfffa || addr == 0xfffc || addr == 0xfffe

vector_test : (addr : ℕ) → addr < 2 ^ 16 → (leb 0xfffa addr && bit_and addr 1 == 0) ≡ is_vector addr
vector_test addr fits = let parity = bit_and_mask 1 addr in ground arith

guarded :
    {A : Type 0} (b lo even c : Bool) (x y z : A)
    → (lo && even) ≡ c
    → (c ≡ true → x ≡ y)
    → (if b && lo && even then x else z) ≡ (if b && c then y else z)
guarded true true true c x y z test same = rw (← test) (same (sym test))
guarded true true false c x y z test same = rw (← test) refl
guarded true false even c x y z test same = rw (← test) refl
guarded false lo even c x y z test same = refl

module _ {W : Type 0} ⦃emu : Emu W⦄ (peek : W → ℕ → ℕ)
    (reads : (a : ℕ) (w : W) → emu.read a w ≡ (peek w a, w))
    (bytes : (w : W) (a : ℕ) → peek w a < 256) where
  enter_handler-peek :
      (addr : ℕ) (s : Session W)
      → is_vector addr ≡ true
      → D.enter_handler addr s ≡ record s {
        dbg = record s.dbg { nextstop = some (peek s.world addr + 256 * peek s.world (addr + 1)) };
      }
  unfolding D.enter_handler D.read_bus D.set_nextstop
  enter_handler-peek addr s vector =
      let above : (addr + 1) % 2 ^ 16 ≡ addr + 1 = ground arith in
      let low = peek s.world addr in
      let high = peek s.world (addr + 1) in
      let word : bit_or (high * 2 ^ 8) low ≡ low + 256 * high =
        omega (arith, bit_or_fields 8 high low (bytes s.world addr)) in
      rw (above, reads (addr + 1) s.world, reads addr s.world, word) refl

  module _ (callback : Event → Session W → Session W) (s : Session W) (st : Status) where
    -- The tracing is only that of an executed instruction, and the handler is opened.
    opened :
        (addr mode stop : ℕ)
        → addr < 2 ^ 16
        → ((mode == b'x') ≡ true) ⊎ ((mode == b'x') ≡ false)
        → let u = D.traced st mode s in
          let t = D.traced st b'x' s in
          (if mode == b'r' && leb 0xfffa addr && bit_and addr 1 == 0
            then D.enter_handler addr u
            else if mode == b'x' && addr == stop
            then callback
                (record { event_type = EventType.fetch; cpu_st = st; index = 0 })
                (D.set_dbg (D.continue_exec u.dbg) u)
            else u)
          ≡ (if mode == b'x'
              then (if addr == stop
                  then callback
                      (record { event_type = EventType.fetch; cpu_st = st; index = 0 })
                      (record t { dbg = record t.dbg { nextstop = none } })
                  else t)
              else if mode == b'r' && is_vector addr
              then record s {
                dbg = record s.dbg {
                  nextstop = some (peek s.world addr + 256 * peek s.world (addr + 1));
                };
              }
              else s)
    unfolding D.continue_exec D.traced
    opened addr mode stop fits (inl executed) =
        let same : mode ≡ b'x' = ground arith in rw same refl
    opened addr mode stop fits (inr accessed) = rw accessed (
        guarded (mode == b'r') (leb 0xfffa addr) (bit_and addr 1 == 0) (is_vector addr) _ _ s
          (vector_test addr fits) (enter_handler-peek addr s))

    -- While a stop address is set and no breakpoint is hit, on a bus whose reads have no effects: the
    -- execution of an instruction calls the callback exactly when it stands at that address, with
    -- the address taken back first, and is traced before; a read of the low byte of an interrupt
    -- vector moves the stop address to the word of the vector; any other access does nothing. The
    -- tracing leaves the stop address and the breakpoints.
    pub fetch_callback_lem :
        (addr mode stop : ℕ)
        → addr < 2 ^ 16
        → emu.callback ≡ some callback
        → s.dbg.quit ≡ false
        → s.dbg.nextstop ≡ some stop
        → D.find_break addr mode 0 s.dbg.breakvec ≡ none
        → let t = D.traced st b'x' s in
          (D.fetch_callback st addr mode s ≡ (
            if mode == b'x'
            then (if addr == stop
                then callback
                    (record { event_type = EventType.fetch; cpu_st = st; index = 0 })
                    (record t { dbg = record t.dbg { nextstop = none } })
                else t)
            else if mode == b'r' && is_vector addr
            then record s {
              dbg = record s.dbg {
                nextstop = some (peek s.world addr + 256 * peek s.world (addr + 1));
              };
            }
            else s))
          × (t.dbg.nextstop ≡ some stop)
          × (t.dbg.breakvec ≡ s.dbg.breakvec)
    unfolding D.continue_exec
    fetch_callback_lem addr mode stop fits registered running n b =
        let kept = traced-KeepsStops st b'x' s in
        (
          unhit callback s st addr mode stop registered running n b
              ∙ opened addr mode stop fits (Bool-cases (mode == b'x')),
          kept.nextstop ∙ n,
          kept.breakvec,
        )
