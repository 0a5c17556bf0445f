-- ===== src/Cpu/Examples.antt =====
-- The theorems on emu/core/cpu.cpp and instructions.cpp at concrete machines, on a memory of 64 KiB
-- that is a function.
use yanesemu.Prelude.{
  ℕ, ◌+◌, ◌*◌, ◌%◌, ◌<◌, ◌≡◌, refl, arith, true, false, ◌==◌, if◌then◌else◌, lookup,
}
use yanesemu.Instr.Status.{cleared}
use yanesemu.Cpu.State.{Regs, Machine, initial, initial_regs}
use yanesemu.Cpu.Exec.{◌>>=◌}
use yanesemu.Cpu.Access.{fetch}
use yanesemu.Cpu.Control
use yanesemu.Cpu.Control.{Flag, reset_vec, nmi_vec}
use yanesemu.Cpu.Alu.{instr_adc, instr_sbc, instr_asl, instr_lsr, instr_rol, instr_ror}
use yanesemu.Cpu.Alu.Shifts.{shifts_exact}
use yanesemu.Cpu.Alu.Arithmetic.{instr_adc_sum, instr_sbc_difference, instr_sbc_ov_misses}
use yanesemu.Cpu.Dispatch.{ReadOp, ReadMode, Entry, instr_table}
use yanesemu.Cpu.Execute.{run, nextaddr, power}
use yanesemu.Cpu.Timing.{SpendsWithin, run-documented}
use yanesemu.Cpu.Words.{IsSized}
use yanesemu.Cpu.Memory.{Memory, env_of}
use yanesemu.Cpu.Next.{nextaddr-run}
use yanesemu.Cpu.Stack.{rts-jsr, HasStack, rti-interrupt}
use yanesemu.Cpu.Interrupt.{pushed, EntersAt, IsPowered, interrupt_lem, power_lem}

byte_bound : (w : ℕ → ℕ) (a : ℕ) → w a % 256 < 256
byte_bound w a = omega arith

-- A bus that is memory everywhere.
abbrev flat : Memory (ℕ → ℕ)
flat = record {
  peek = λ w a. w a % 256;
  poke = λ a v w b. if a == b then v else w b;
  bytes = byte_bound;
}

flat-HasStack : HasStack flat
flat-HasStack = record { stores = λ w a b v h1 h2 h3 h4 h5. ground arith }

-- `ADC $0102,x` at $8000, with the IRQ vector at $9000 and the stack at $01FD.
abbrev program : ℕ → ℕ
program a =
    if a == 0x8000
    then 0x7d
    else if a == 0x8001
    then 0x02
    else if a == 0x8002
    then 0x01
    else if a == 0xffff
    then 0x90
    else 0

abbrev example_regs : Regs
example_regs = record initial_regs {
  pc = 0x8000;
  acc = 0x7f;
  x = 3;
  y = 0x80;
  sp = 0xfd;
  flags = record cleared { carry = true };
}

abbrev example : Machine (ℕ → ℕ)
example = record { cpu = record initial { r = example_regs }; world = program }

example-IsSized : IsSized example
example-IsSized = record {
  regs = record {
    pc = omega arith;
    acc = omega arith;
    x = omega arith;
    y = omega arith;
    sp = omega arith;
  };
  opargs = omega arith;
}

abbrev adc_absx : Entry
adc_absx = Entry.read ReadOp.adc ReadMode.absx

instr_adc_sum_example :
    let s = instr_adc 0x50 example_regs in
    (s.acc + 256 * 0 ≡ 0x7f + 0x50 + 1)
    × (s.acc < 256)
    × (s.flags.ov ≡ true)
    × (s.flags.zero ≡ false)
    × (s.flags.neg ≡ true)
unfolding instr_adc
instr_adc_sum_example = instr_adc_sum 0x50 example_regs (omega arith) (omega arith)

instr_sbc_difference_example :
    let s = instr_sbc 0x80 example_regs in
    (s.acc + 0x80 + 0 ≡ 0x7f + 256 * 1)
    × (s.acc < 256)
    × (s.flags.zero ≡ false)
    × (s.flags.neg ≡ true)
unfolding instr_sbc
instr_sbc_difference_example = instr_sbc_difference 0x80 example_regs (omega arith) (omega arith)

-- 127 - (-128) overflows, and the flag is clear.
instr_sbc_ov_misses_example :
    let s = instr_sbc 0x80 example_regs in
    (true ≡ true → s.flags.ov ≡ false) × (s.flags.ov ≡ true → true ≡ false)
instr_sbc_ov_misses_example = instr_sbc_ov_misses 0x80 example_regs (omega arith) (omega arith)

run-documented_example : SpendsWithin 4 1 example (run ⦃env = env_of flat⦄ example).1
unfolding fetch lookup instr_table
run-documented_example = run-documented ⦃env = env_of flat⦄ example adc_absx refl refl refl

nextaddr-run_example :
    (nextaddr ⦃env = env_of flat⦄ example).0 ≡ (run ⦃env = env_of flat⦄ example).1.cpu.pc
nextaddr-run_example =
    nextaddr-run flat example example-IsSized refl refl (λ e. omega arith) (λ e. omega arith)
      (λ e. omega arith)

rti-interrupt_example :
    let t =
      (Control.interrupt ⦃env = env_of flat⦄ >>= λ _. Control.instr_rti ⦃env = env_of flat⦄)
        example in
    (t.1.cpu.pc ≡ 0x8000) × (t.1.cpu.sp ≡ 0xfd) × (t.1.cpu.flags ≡ record cleared { carry = true })
rti-interrupt_example = rti-interrupt flat flat-HasStack example example-IsSized

-- Both an NMI and an IRQ are pending.
abbrev signalled : Machine (ℕ → ℕ)
signalled = record example { cpu = record example.cpu { nmipending = true; irqpending = true } }

signalled-IsSized : IsSized signalled
signalled-IsSized = record { regs = example-IsSized.regs; opargs = example-IsSized.opargs }

interrupt_lem_example :
    let t = (Control.interrupt ⦃env = env_of flat⦄ signalled).1 in
    EntersAt flat nmi_vec t
    × (t.world ≡ pushed flat signalled)
    × (t.cpu.sp ≡ 0xfa)
    × (t.cpu.flags ≡ record cleared { carry = true; intdis = true })
    × (t.cpu.resetpending ≡ false)
    × (t.cpu.nmipending ≡ false)
    × (t.cpu.irqpending ≡ true)
interrupt_lem_example = interrupt_lem flat signalled signalled-IsSized

power_lem_example : IsPowered flat example.cpu (power ⦃env = env_of flat⦄ example).1
power_lem_example = power_lem flat example example-IsSized

rts-jsr_example :
    let t =
      (Control.instr_jsr ⦃env = env_of flat⦄ >>= λ _. Control.instr_rts ⦃env = env_of flat⦄)
        example in
    (t.1.cpu.pc ≡ 0x8002) × (t.1.cpu.sp ≡ 0xfd)
rts-jsr_example = rts-jsr flat flat-HasStack example example-IsSized

shifts_exact_example :
    ((instr_asl 0x81 example_regs).0 + 256 * 1 ≡ 2 * 0x81)
    × (2 * (instr_lsr 0x81 example_regs).0 + 1 ≡ 0x81)
    × ((instr_rol 0x81 example_regs).0 + 256 * 1 ≡ 2 * 0x81 + 1)
    × (2 * (instr_ror 0x81 example_regs).0 + 1 ≡ 0x81 + 256 * 1)
unfolding instr_asl instr_lsr instr_rol instr_ror
shifts_exact_example = shifts_exact 0x81 example_regs (omega arith)
