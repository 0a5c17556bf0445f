-- ===== src/Cpu/Stack.antt =====
-- emu/core/cpu.cpp and instructions.cpp: what is pushed is pulled again. The bus is one whose reads
-- have no effects and whose cells $0100-$01FF, where the stack lies, store what is written.
use yanesemu.Prelude.{ℕ, ◌+◌, ◌/◌, ◌%◌, ◌^◌, ◌<◌, ◌≤◌, ◌≡◌, arith, false, ◌==◌, if◌then◌else◌}
use yanesemu.Instr.Status.{to_byte, of_byte-to_byte, to_byte-lt}
use yanesemu.Cpu.State.{Machine}
use yanesemu.Cpu.Exec.{◌>>=◌}
use yanesemu.Cpu.Access.{push, pull}
use yanesemu.Cpu.Control
use yanesemu.Cpu.Words.{IsSized}
use yanesemu.Cpu.Memory.{Memory, env_of}

-- The stack page is memory.
pub record HasStack {W : Type 0} (m : Memory W) : Type 0 where
  pub stores :
      (w : W) (a b v : ℕ)
      → 0x100 ≤ a
      → a < 0x200
      → 0x100 ≤ b
      → b < 0x200
      → v < 256
      → m.peek (m.poke a v w) b ≡ (if a == b then v else m.peek w b)

module _ {W : Type 0} (m : Memory W) (k : HasStack m) (s : Machine W) (h : IsSized s) where
  -- A byte that is pushed is what the next pull gives, and the stack pointer is as before, also where
  -- it wraps around.
  pub pull-push :
      (v : ℕ)
      → v < 256
      → let t = (push ⦃env = env_of m⦄ v >>= λ _. pull ⦃env = env_of m⦄) s in
        (t.0 ≡ v) × (t.1.cpu.sp ≡ s.cpu.sp)
  unfolding push pull ◌>>=◌
  pull-push v hv = grind (arith, k.stores)

  -- PHA and then PLA leave the accumulator, the stack pointer and the program counter as they were.
  pub pla-pha :
      let t = (Control.instr_pha ⦃env = env_of m⦄ >>= λ _. Control.instr_pla ⦃env = env_of m⦄) s in
      (t.1.cpu.acc ≡ s.cpu.acc) × (t.1.cpu.sp ≡ s.cpu.sp) × (t.1.cpu.pc ≡ s.cpu.pc)
  unfolding Control.instr_pha Control.instr_pla ◌>>=◌
  pla-pha = grind (arith, k.stores)

  -- PHP and then PLP leave the flags as they were but for the break flag, which is cleared, and leave
  -- the stack pointer and the program counter.
  pub plp-php :
      let t = (Control.instr_php ⦃env = env_of m⦄ >>= λ _. Control.instr_plp ⦃env = env_of m⦄) s in
      (t.1.cpu.flags ≡ record s.cpu.flags { breakf = false })
      × (t.1.cpu.sp ≡ s.cpu.sp)
      × (t.1.cpu.pc ≡ s.cpu.pc)
  unfolding Control.instr_php Control.instr_plp ◌>>=◌
  plp-php = grind (arith, k.stores, of_byte-to_byte, to_byte-lt)

  -- JSR and then RTS come back to the byte after the operand of JSR, with the stack pointer as before.
  pub rts-jsr :
      let t = (Control.instr_jsr ⦃env = env_of m⦄ >>= λ _. Control.instr_rts ⦃env = env_of m⦄) s in
      (t.1.cpu.pc ≡ (s.cpu.pc + 2) % 2 ^ 16) × (t.1.cpu.sp ≡ s.cpu.sp)
  unfolding Control.instr_jsr Control.instr_rts ◌>>=◌
  rts-jsr = grind (arith, k.stores)

  -- The cells that three pushes from `sp` write, and what they hold afterwards.
  three_pushed :
      (sp a b c : ℕ)
      → sp < 256
      → a < 256
      → b < 256
      → c < 256
      → let x = sp + 256 in
        let y = (sp + 255) % 256 + 256 in
        let z = ((sp + 255) % 256 + 255) % 256 + 256 in
        let w = m.poke z c (m.poke y b (m.poke x a s.world)) in
        (m.peek w x ≡ a) × (m.peek w y ≡ b) × (m.peek w z ≡ c)
  three_pushed sp a b c hs ha hb hc = grind (arith, k.stores)

  -- The interrupt sequence and then RTI come back to the program counter and the stack pointer of
  -- before, with the flags of before but for the break flag, which is cleared.
  pub rti-interrupt :
      let t = (Control.interrupt ⦃env = env_of m⦄ >>= λ _. Control.instr_rti ⦃env = env_of m⦄) s in
      (t.1.cpu.pc ≡ s.cpu.pc)
      × (t.1.cpu.sp ≡ s.cpu.sp)
      × (t.1.cpu.flags ≡ record s.cpu.flags { breakf = false })
  unfolding Control.interrupt Control.instr_rti ◌>>=◌
  rti-interrupt = ground (
    arith,
    three_pushed s.cpu.sp (s.cpu.pc / 256) (s.cpu.pc % 256) (to_byte s.cpu.flags),
    of_byte-to_byte s.cpu.flags,
    to_byte-lt s.cpu.flags,
  )
