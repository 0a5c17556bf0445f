-- ===== src/Debugger/Examples.antt =====
-- The theorems on emu/core/debugger.cpp at concrete sessions, on a memory that holds NOPs.
use yanesemu.Prelude.{ℕ, ◌≡◌, refl, arith, true, some, get_elem?, [], ◌∷◌}
use yanesemu.Cpu.State.{Status, initial_regs}
use yanesemu.Debugger as D
use yanesemu.Debugger.{Breakpoint, Debugger, Session, Emu, Event, EventType}
use yanesemu.Debugger.Backtrace.{Balanced, update_all, update_all-Balanced}
use yanesemu.Debugger.Breaks.{delbreak-setbreak}
use yanesemu.Debugger.Stepping.{fetch_callback_lem}

abbrev handler : Event → Session ℕ → Session ℕ
handler ev s = D.set_dbg (D.set_quit true s.dbg) s

abbrev status_of : ℕ → Status
status_of id = record { regs = initial_regs; id = id; op = 0 }

abbrev nops : ℕ → ℕ → ℕ
nops w a = 0xea

abbrev emu : Emu ℕ
emu = record {
  read = λ a w. (nops w a, w);
  write = λ a v w. w;
  readreg_no_sideeff = λ a w. (0, w);
  pc = λ w. 0;
  nextaddr = λ w. (1, w);
  cpu_status = λ w. (status_of 0xea, w);
  print_trace = λ st w. w;
  callback = some handler;
}

-- A breakpoint on the execution of $8000 to $8010.
abbrev point : Breakpoint
point = record { start = 0x8000; end = 0x8010; mode = b'x' }

abbrev debugger : Debugger
debugger = record D.initial { breakvec = point ∷ point ∷ [] }

abbrev session : Session ℕ
session = record { dbg = debugger; world = 0 }

-- A call, an instruction, the return.
call_and_return : Balanced (status_of 0x20 ∷ status_of 0xea ∷ status_of 0x60 ∷ [])
call_and_return =
    Balanced.call (status_of 0x20) (status_of 0x60) (status_of 0xea ∷ []) [] refl refl
      (Balanced.straight (status_of 0xea) [] refl Balanced.done) Balanced.done

update_all-Balanced_example :
    update_all (status_of 0x20 ∷ status_of 0xea ∷ status_of 0x60 ∷ []) debugger ≡ debugger
update_all-Balanced_example = update_all-Balanced call_and_return debugger

-- The stop address is 0 from the beginning, and a read of the reset vector moves it.
fetch_callback_lem_example :
    let t = D.traced ⦃emu = emu⦄ (status_of 0xea) b'x' session in
    (D.fetch_callback ⦃emu = emu⦄ (status_of 0xea) 0xfffc b'r' session
      ≡ record session { dbg = record debugger { nextstop = some 0xeaea } })
    × (t.dbg.nextstop ≡ some 0)
    × (t.dbg.breakvec ≡ debugger.breakvec)
unfolding D.find_break
fetch_callback_lem_example =
    fetch_callback_lem ⦃emu = emu⦄ nops (λ a w. refl) (λ w a. omega arith) handler session
      (status_of 0xea) 0xfffc b'r' 0 (omega arith) refl refl refl refl

delbreak-setbreak_example :
    let e = (D.setbreak point debugger).1 in
    (get_elem? e.breakvec 2 ≡ some point) × (D.delbreak 2 e ≡ debugger)
unfolding D.setbreak
delbreak-setbreak_example = delbreak-setbreak point debugger
