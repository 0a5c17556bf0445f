-- ===== src/Debugger.antt =====
-- emu/core/debugger.hpp and debugger.cpp: breakpoints, stepping and the backtrace.
pub mod Breaks
pub mod Backtrace
pub mod Stepping
mod Examples
use yanesemu.Prelude.{
  ℕ, zero, suc, ◌+◌, ◌*◌, ◌%◌, ◌^◌, bit_and, bit_or, Bool, true, false, not, leb, ◌==◌, ◌&&◌, ◌||◌,
  if◌then◌else◌, Option, none, some, List, [], ◌∷◌, ◌++◌, length,
}
use yanesemu.Instr.Decode.{is_jump, num_bytes}
use yanesemu.Cpu.State.{Status}

pub record Breakpoint : Type 0 where
  pub start : ℕ
  pub end : ℕ
  pub mode : ℕ

pub data EventType : Type 0 where
  fetch break : EventType

pub record Event : Type 0 where
  pub event_type : EventType
  pub cpu_st : Status
  pub index : ℕ

-- `btrace` has the element that was pushed last at its head. `tracing` is whether `tracefile` is
-- open. `failed` tells that `back` or `erase` was called where the vector has no such element, with
-- which the model goes on.
pub record Debugger : Type 0 where
  pub breakvec : List Breakpoint
  pub nextstop : Option ℕ
  pub btrace : List Status
  pub tracing : Bool
  pub quit : Bool
  pub failed : Bool

-- The default member initialisers.
abbrev pub initial : Debugger
initial = record {
  breakvec = [];
  nextstop = some 0;
  btrace = [];
  tracing = false;
  quit = false;
  failed = false;
}

-- The debugger, and the world that the rest of the emulator is.
pub record Session (W : Type 0) : Type 0 where
  pub dbg : Debugger
  pub world : W

-- What the debugger reaches through `emu`, the callback that is registered, which may call the
-- operations of the debugger, and the line that `trace` prints on an open file.
pub record Emu (W : Type 0) : Type 0 where
  pub read : ℕ → W → ℕ × W
  pub write : ℕ → ℕ → W → W
  pub readreg_no_sideeff : ℕ → W → ℕ × W
  pub pc : W → ℕ
  pub nextaddr : W → ℕ × W
  pub cpu_status : W → Status × W
  pub print_trace : Status → W → W
  pub callback : Option (Event → Session W → Session W)

-- `update_backtrace`
unfoldable pub pop_call : List Status → Debugger → Debugger
pop_call [] d = record d { failed = true }
pop_call (st ∷ below) d = if st.id == 0x20 then record d { btrace = below } else d

unfoldable pub update_backtrace : Status → Debugger → Debugger
unfolding pop_call
update_backtrace st d =
    if st.id == 0x20 || st.id == 0x4c || st.id == 0x6c
    then record d { btrace = st ∷ d.btrace }
    else if st.id == 0x60
    then pop_call d.btrace d
    else d

-- The condition of a breakpoint on an access.
unfoldable pub is_hit : ℕ → ℕ → Breakpoint → Bool
is_hit addr mode p = p.mode == mode && leb p.start addr && leb addr p.end

-- `std::find_if`, as the index of the breakpoint; `i` is that of the first one in the list.
unfoldable pub find_break : ℕ → ℕ → ℕ → List Breakpoint → Option ℕ
unfolding is_hit
find_break addr mode i [] = none
find_break addr mode i (p ∷ ps) =
    if is_hit addr mode p then some i else find_break addr mode (suc i) ps

abbrev pub remove_at : {A : Type 0} → ℕ → List A → List A
remove_at i [] = []
remove_at zero (x ∷ xs) = xs
remove_at (suc i) (x ∷ xs) = x ∷ remove_at i xs

unfoldable pub continue_exec : Debugger → Debugger
continue_exec d = record d { nextstop = none }

unfoldable pub set_nextstop : ℕ → Debugger → Debugger
set_nextstop addr d = record d { nextstop = some addr }

unfoldable pub set_quit : Bool → Debugger → Debugger
set_quit q d = record d { quit = q }

unfoldable pub stop_tracing : Debugger → Debugger
stop_tracing d = record d { tracing = false }

-- The file that is given is open.
unfoldable pub start_tracing : Debugger → Debugger
unfolding stop_tracing
start_tracing d = record (stop_tracing d) { tracing = true }

-- The index that `setbreak` returns fits in an `unsigned`.
unfoldable pub setbreak : Breakpoint → Debugger → ℕ × Debugger
setbreak p d = (length d.breakvec, record d { breakvec = d.breakvec ++ (p ∷ []) })

unfoldable pub delbreak : ℕ → Debugger → Debugger
delbreak index d = record d {
  breakvec = remove_at index d.breakvec;
  failed = d.failed || leb (length d.breakvec) index;
}

abbrev pub set_dbg : {W : Type 0} → Debugger → Session W → Session W
set_dbg d s = record s { dbg = d }

module _ {W : Type 0} ⦃emu : Emu W⦄ where
  -- `emu->rambus.read`
  unfoldable pub read_bus : ℕ → Session W → ℕ × Session W
  read_bus addr s = let (v, w) = emu.read addr s.world in (v, record s { world = w })

  unfoldable pub trace : Status → Session W → Session W
  trace st s = if not s.dbg.tracing then s else record s { world = emu.print_trace st s.world }

  unfoldable pub traced : Status → ℕ → Session W → Session W
  unfolding trace update_backtrace
  traced st mode s = if mode == b'x' then trace st (set_dbg (update_backtrace st s.dbg) s) else s

  -- `nextstop = emu->rambus.read(addr+1) << 8 | emu->rambus.read(addr)`
  unfoldable pub enter_handler : ℕ → Session W → Session W
  unfolding read_bus set_nextstop
  enter_handler addr s =
      let (high, s1) = read_bus ((addr + 1) % 2 ^ 16) s in
      let (low, s2) = read_bus addr s1 in
      set_dbg (set_nextstop (bit_or (high * 2 ^ 8) low) s2.dbg) s2

  module _ (callback : Event → Session W → Session W) (st : Status) where
    unfoldable pub report : Option ℕ → Session W → Session W
    report none s = s
    report (some i) s = callback (record { event_type = EventType.break; cpu_st = st; index = i }) s

    -- The handling of the next and step commands, by the value of `nextstop`.
    unfoldable pub stop_at : Option ℕ → ℕ → ℕ → Session W → Session W
    unfolding enter_handler continue_exec
    stop_at none addr mode s = s
    stop_at (some stop) addr mode s =
        if mode == b'r' && leb 0xfffa addr && bit_and addr 1 == 0
        then enter_handler addr s
        else if mode == b'x' && addr == stop
        then callback (record { event_type = EventType.fetch; cpu_st = st; index = 0 })
            (set_dbg (continue_exec s.dbg) s)
        else s

    -- `fetch_callback` with a callback.
    unfoldable pub watch : ℕ → ℕ → Session W → Session W
    unfolding traced find_break report stop_at
    watch addr mode s =
        let s1 = traced st mode s in
        let s2 = report (find_break addr mode 0 s1.dbg.breakvec) s1 in
        stop_at s2.dbg.nextstop addr mode s2

  unfoldable pub fetch_callback : Status → ℕ → ℕ → Session W → Session W
  unfolding watch
  fetch_callback st addr mode s =
      if s.dbg.quit
      then s
      else elim emu.callback [ none ↦ s | some callback ↦ watch callback st addr mode s ]

  unfoldable pub step : Session W → Session W
  unfolding set_nextstop
  step s =
      let (addr, w) = emu.nextaddr s.world in record { dbg = set_nextstop addr s.dbg; world = w }

  unfoldable pub next : Session W → Session W
  unfolding set_nextstop read_bus step
  next s =
      let pc = emu.pc s.world in
      let (id, s1) = read_bus pc s in
      if is_jump id
      then set_dbg (set_nextstop ((pc + num_bytes id) % 2 ^ 16) s1.dbg) s1
      else step s1

  unfoldable pub read : ℕ → Session W → ℕ × Session W
  unfolding read_bus
  read addr s =
      let (v, w) = emu.readreg_no_sideeff addr s.world in
      if leb 0x2000 addr && leb addr 0x2007 then (v, record s { world = w }) else read_bus addr s

  -- `cpu_status`, which reads the instruction from the bus.
  unfoldable pub cpu_status : Session W → Status × Session W
  cpu_status s = let (st, w) = emu.cpu_status s.world in (st, record s { world = w })

  unfoldable pub write : ℕ → ℕ → Session W → Session W
  write addr value s = record s { world = emu.write addr value s.world }
