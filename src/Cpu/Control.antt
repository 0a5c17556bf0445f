-- ===== src/Cpu/Control.antt =====
-- emu/core/instructions.cpp and cpu.cpp: the instructions that work on the program counter, the
-- stack and single registers, and the interrupt sequence.
mod Registers
pub use Registers.*
use yanesemu.Prelude.{ℕ, ◌+◌, ◌%◌, ◌^◌, Bool, true, false, ◌==◌, if◌then◌else◌, bit_and}
use yanesemu.Instr.Reg16.{low, high, set_low, set_high}
use yanesemu.Instr.Status.{ProcStatus, to_byte, of_byte}
use yanesemu.Instr.Decode.{sign_extend}
use yanesemu.Cpu.State.{Cpu, Regs, Env}
use yanesemu.Cpu.Exec.{Exec, pure, gets, modify, ◌>>=◌, ◌>>◌}
use yanesemu.Cpu.Access.{cycle, readmem, last_cycle, push, pull, set_pc}
use yanesemu.Cpu.Alu.{zero_neg}
use yanesemu.Cpu.Modes.{fetch_low, fetch_high, get_opargs, call_read}

module _ {W : Type 0} ⦃env : Env W⦄ where
  -- `r.pc.low = …` and `r.pc.high = …`
  unfoldable pub store_pc_low : ℕ → Exec W (Unit {0})
  unfolding ◌>>=◌
  store_pc_low v = modify (λ c. set_pc (set_low c.pc v) c)

  unfoldable pub store_pc_high : ℕ → Exec W (Unit {0})
  unfolding ◌>>=◌
  store_pc_high v = modify (λ c. set_pc (set_high c.pc v) c)

  unfoldable pub get_pc : Exec W ℕ
  unfolding ◌>>=◌
  get_pc = gets (λ c. c.pc)

  -- The rest of `instr_branch` where the branch is taken; `tmp` is the program counter before.
  unfoldable pub branch_taken : ℕ → ℕ → Exec W (Unit {0})
  unfolding ◌>>=◌ cycle last_cycle get_pc
  branch_taken arg tmp = do
    cycle
    modify (λ c. set_pc ((c.pc + sign_extend arg) % 2 ^ 16) c)
    last_cycle
    pc ← get_pc
    if high tmp == high pc then pure tt else cycle

  unfoldable pub instr_branch : Bool → Exec W (Unit {0})
  unfolding ◌>>=◌ last_cycle fetch_low get_pc branch_taken
  instr_branch take = do
    last_cycle
    arg ← fetch_low
    tmp ← get_pc
    if take then branch_taken arg tmp else pure tt

  unfoldable pub instr_flag : Flag → Bool → Exec W (Unit {0})
  unfolding ◌>>=◌ cycle last_cycle
  instr_flag flag v = do last_cycle; cycle; modify (λ c. set_flags (set_flag flag v c.flags) c)

  unfoldable pub instr_transfer : ℕ → Register → Exec W (Unit {0})
  unfolding ◌>>=◌ cycle last_cycle call_read
  instr_transfer from to = do last_cycle; cycle; call_read (transfer to) from

  unfoldable pub instr_inx : Exec W (Unit {0})
  unfolding ◌>>=◌ cycle last_cycle call_read
  instr_inx = do
    cycle
    v ← gets (λ c. (c.x + 1) % 2 ^ 8)
    call_read (transfer Register.x) v
    last_cycle

  unfoldable pub instr_iny : Exec W (Unit {0})
  unfolding ◌>>=◌ cycle last_cycle call_read
  instr_iny = do
    cycle
    v ← gets (λ c. (c.y + 1) % 2 ^ 8)
    call_read (transfer Register.y) v
    last_cycle

  unfoldable pub instr_dex : Exec W (Unit {0})
  unfolding ◌>>=◌ cycle last_cycle call_read
  instr_dex = do
    cycle
    v ← gets (λ c. (c.x + 255) % 2 ^ 8)
    call_read (transfer Register.x) v
    last_cycle

  unfoldable pub instr_dey : Exec W (Unit {0})
  unfolding ◌>>=◌ cycle last_cycle call_read
  instr_dey = do
    cycle
    v ← gets (λ c. (c.y + 255) % 2 ^ 8)
    call_read (transfer Register.y) v
    last_cycle

  -- `push(r.flags)`
  unfoldable pub push_flags : Exec W (Unit {0})
  unfolding ◌>>=◌ push
  push_flags = do p ← gets (λ c. to_byte c.flags); push p

  -- `r.flags = pull(); r.flags.breakf = 0;`
  unfoldable pub pull_flags : Exec W (Unit {0})
  unfolding ◌>>=◌ pull
  pull_flags = do v ← pull; modify (λ c. set_flags (of_byte v) c); modify (set_breakf false)

  -- `push(r.pc.high); push(r.pc.low);`
  unfoldable pub push_pc : Exec W (Unit {0})
  unfolding ◌>>=◌ push
  push_pc = do hi ← gets (λ c. high c.pc); push hi; lo ← gets (λ c. low c.pc); push lo

  -- `r.pc.low = pull(); r.pc.high = pull();`
  unfoldable pub pull_pc : Exec W (Unit {0})
  unfolding ◌>>=◌ pull store_pc_low store_pc_high
  pull_pc = do lo ← pull; store_pc_low lo; hi ← pull; store_pc_high hi

  unfoldable pub instr_php : Exec W (Unit {0})
  unfolding ◌>>=◌ cycle last_cycle push_flags
  instr_php = do cycle; modify (set_breakf true); push_flags; modify (set_breakf false); last_cycle

  unfoldable pub instr_pha : Exec W (Unit {0})
  unfolding ◌>>=◌ cycle push last_cycle
  instr_pha = do cycle; v ← gets (λ c. c.acc); push v; last_cycle

  unfoldable pub instr_plp : Exec W (Unit {0})
  unfolding ◌>>=◌ cycle last_cycle pull_flags
  instr_plp = do cycle; cycle; last_cycle; pull_flags

  unfoldable pub instr_pla : Exec W (Unit {0})
  unfolding ◌>>=◌ cycle pull last_cycle call_read
  instr_pla = do cycle; cycle; v ← pull; call_read (transfer Register.acc) v; last_cycle

  unfoldable pub instr_jsr : Exec W (Unit {0})
  unfolding ◌>>=◌ cycle last_cycle fetch_low fetch_high store_pc_low store_pc_high push_pc
  instr_jsr = do
    fetch_low
    fetch_high
    modify (λ c. set_pc ((c.pc + 0xffff) % 2 ^ 16) c)
    cycle
    push_pc
    lo ← gets (λ c. low c.opargs)
    store_pc_low lo
    hi ← gets (λ c. high c.opargs)
    store_pc_high hi
    last_cycle

  unfoldable pub instr_jmp : Exec W (Unit {0})
  unfolding ◌>>=◌ last_cycle fetch_low fetch_high get_opargs
  instr_jmp = do fetch_low; fetch_high; full ← get_opargs; modify (set_pc full); last_cycle

  -- `r.pc.low = readmem(full); r.pc.high = readmem(next);`
  unfoldable pub load_pc : ℕ → ℕ → Exec W (Unit {0})
  unfolding ◌>>=◌ readmem store_pc_low store_pc_high
  load_pc full next = do lo ← readmem full; store_pc_low lo; hi ← readmem next; store_pc_high hi

  unfoldable pub instr_jmp_ind : Exec W (Unit {0})
  unfolding ◌>>=◌ last_cycle fetch_low fetch_high get_opargs load_pc
  instr_jmp_ind = do
    fetch_low
    fetch_high
    full ← get_opargs
    load_pc full (if low full == 0xff then bit_and full 0xff00 else (full + 1) % 2 ^ 16)
    last_cycle

  unfoldable pub instr_rts : Exec W (Unit {0})
  unfolding ◌>>=◌ cycle last_cycle pull_pc
  instr_rts = do
    cycle
    cycle
    pull_pc
    modify (λ c. set_pc ((c.pc + 1) % 2 ^ 16) c)
    cycle
    last_cycle

  unfoldable pub instr_rti : Exec W (Unit {0})
  unfolding ◌>>=◌ cycle last_cycle pull_flags pull_pc
  instr_rti = do cycle; cycle; pull_flags; pull_pc; last_cycle

  unfoldable pub instr_nop : Exec W (Unit {0})
  unfolding ◌>>=◌ cycle last_cycle
  instr_nop = do cycle; last_cycle

  unfoldable pub take_interrupt : Exec W ℕ
  take_interrupt s = let (vec, c) = take_vector s.cpu in (vec, record s { cpu = c })

  unfoldable pub interrupt : Exec W (Unit {0})
  unfolding ◌>>=◌ cycle push_flags push_pc load_pc take_interrupt
  interrupt = do
    cycle
    push_pc
    push_flags
    modify (λ c. set_flags (record c.flags { breakf = false; intdis = true }) c)
    vec ← take_interrupt
    load_pc vec (vec + 1)

  unfoldable pub instr_brk : Exec W (Unit {0})
  unfolding ◌>>=◌ interrupt
  instr_brk = do modify (set_breakf true); interrupt
