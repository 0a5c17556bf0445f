-- ===== src/Cpu/Next.antt =====
-- emu/core/cpu.cpp: `nextaddr`, which the debugger uses to find the next instruction without running
-- the current one, against `run`, on a bus whose reads have no effects.
use yanesemu.Prelude.{
  ℕ, ◌+◌, ◌*◌, ◌%◌, ◌^◌, ◌<◌, bit_and, ◌≡◌, ◌≢◌, ◌∙◌, refl, arith, Bool, true, false, not, ◌==◌,
  ==_iff, Option, none, some, Option-cases, lookup, lookup-all_rows, all_below_sound, if◌then◌else◌,
  bit_or,
}
use yanesemu.Prelude.Bits.{bit_or_low}
use yanesemu.Instr.Reg16.{low}
use yanesemu.Instr.Table.{instr_mode}
use yanesemu.Instr.Decode.{num_bytes, took_branch, branch_pointer}
use yanesemu.Cpu.State.{Cpu, Machine}
use yanesemu.Cpu.Exec.{◌>>=◌}
use yanesemu.Cpu.Access.{fetch, status, bus_read}
use yanesemu.Cpu.Control as Ctl
use yanesemu.Cpu.Control.{Flag}
use yanesemu.Cpu.Dispatch.{Implied, Entry, instr_table}
use yanesemu.Cpu.Execute.{
  perform, perform_case, execute, run, run_with, next_of, next_jmp_ind, read_word, nextaddr,
}
use yanesemu.Cpu.Words.{IsSized, perform-IsSized, fetch-IsSized}
use yanesemu.Cpu.Steps.{is_plain, perform-Steps}
use yanesemu.Cpu.Memory.{Memory, env_of}
use yanesemu.Cpu.Agreement.{
  branch_id, is_ordinary, row_agrees, table_agrees, unknown_agrees, plain_agrees,
}

module _ {W : Type 0} (m : Memory W) (s : Machine W) where
  next_ordinary :
      (id op : ℕ) (c : Cpu)
      → is_ordinary id ≡ true
      → (next_of ⦃env = env_of m⦄ id op c s).0 ≡ (c.pc + num_bytes id) % 2 ^ 16
  unfolding next_of took_branch ◌>>=◌
  next_ordinary id op c h = ground arith

  next_branch :
      (f : Flag) (v : Bool) (id op : ℕ) (c : Cpu)
      → branch_id f v ≡ some id
      → (next_of ⦃env = env_of m⦄ id op c s).0 ≡ (
          if (if v then Ctl.get_flag f c.flags else not (Ctl.get_flag f c.flags))
          then branch_pointer (low op) c.pc
          else (c.pc + 2) % 2 ^ 16)
  unfolding next_of took_branch ◌>>=◌ num_bytes instr_mode lookup
  next_branch Flag.neg true id op c h = ground arith
  next_branch f v id op c h = ground arith

  next_loads :
      (id op : ℕ) (c : Cpu)
      → let next = (next_of ⦃env = env_of m⦄ id op c s).0 in
        let word = λ (a b : ℕ). bit_or (m.peek s.world a) (m.peek s.world b * 2 ^ 8) in
        (id ≡ 0x20 → next ≡ op)
        × (id ≡ 0x4c → next ≡ op)
        × (id ≡ 0x6c
            → next ≡ word op (if low op == 0xff then bit_and op 0xff00 else (op + 1) % 2 ^ 16))
        × (id ≡ 0x60 → next ≡ (1 + word (c.sp + 1 + 0x100) (c.sp + 2 + 0x100)) % 2 ^ 16)
  unfolding next_of next_jmp_ind read_word ◌>>=◌ bus_read
  next_loads id op c = (λ e. rw e, λ e. rw e, λ e. rw e, λ e. rw e)

module _ {W : Type 0} (m : Memory W) (s : Machine W) (h : IsSized s) where
  abbrev opcode : ℕ
  opcode = m.peek s.world s.cpu.pc

  abbrev operand : ℕ
  operand = (status ⦃env = env_of m⦄ s).0.op

  -- The machine after the fetch of the opcode.
  abbrev fetched : Machine W
  fetched = (fetch ⦃env = env_of m⦄ s).1

  fetched-IsSized : IsSized fetched
  fetched-IsSized = fetch-IsSized ⦃env = env_of m⦄ (λ a w. m.bytes w a) s h

  next : ℕ
  next = (next_of ⦃env = env_of m⦄ opcode operand s.cpu s).0

  after : Entry → ℕ
  after e = (perform ⦃env = env_of m⦄ e fetched).1.cpu.pc

  after-lt : (e : Entry) → after e < 2 ^ 16
  unfolding after
  after-lt e =
      (perform-IsSized ⦃env = env_of m⦄ (λ a w. m.bytes w a) fetched fetched-IsSized e).regs.pc

  fetched_pc : fetched.cpu.pc ≡ (s.cpu.pc + 1) % 2 ^ 16
  unfolding fetch
  fetched_pc = refl

  next_plain : (e : Entry) → is_plain e ≡ true → row_agrees opcode e ≡ true → next ≡ after e
  unfolding next after
  next_plain e p agrees =
      let facts = plain_agrees opcode e p agrees in
      let moved = perform-Steps ⦃env = env_of m⦄ fetched e p in
      let bound = after-lt e in
      omega (arith, next_ordinary m s opcode operand s.cpu facts.0, facts.1, moved.pc, fetched_pc)

  next_jsr : opcode ≡ 0x20 → next ≡ after (Entry.impld Implied.jsr)
  unfolding next after perform Ctl.instr_jsr fetch status ◌>>=◌
  next_jsr e = (next_loads m s opcode operand s.cpu).0 e ∙ ground (arith, m.bytes s.world)

  next_jmp : opcode ≡ 0x4c → next ≡ after (Entry.impld Implied.jmp)
  unfolding next after perform Ctl.instr_jmp fetch status ◌>>=◌
  next_jmp e = (next_loads m s opcode operand s.cpu).1 e ∙ ground (arith, m.bytes s.world)

  next_jmp_indirect : opcode ≡ 0x6c → next ≡ after (Entry.impld Implied.jmp_ind)
  unfolding next after perform Ctl.instr_jmp_ind fetch status ◌>>=◌
  next_jmp_indirect e =
      (next_loads m s opcode operand s.cpu).2 e ∙ grind (arith, m.bytes s.world, bit_or_low 8)

  next_rts : opcode ≡ 0x60 → s.cpu.sp < 254 → next ≡ after (Entry.impld Implied.rts)
  unfolding next after perform Ctl.instr_rts fetch status ◌>>=◌
  next_rts e fits =
      (next_loads m s opcode operand s.cpu).3 e ∙ grind (arith, m.bytes s.world, bit_or_low 8)

  branch_target :
      (take : Bool)
      → (if take then branch_pointer (low operand) s.cpu.pc else (s.cpu.pc + 2) % 2 ^ 16)
        ≡ (Ctl.instr_branch ⦃env = env_of m⦄ take fetched).1.cpu.pc
  unfolding Ctl.instr_branch fetch status ◌>>=◌ branch_pointer
  branch_target true = ground (arith, m.bytes s.world ((s.cpu.pc + 1) % 65536))
  branch_target false = omega arith

  same_test :
      (v flag : Bool)
      → (if v then flag else not flag) ≡ (if v then flag else if flag then false else true)
  same_test true flag = refl
  same_test false true = refl
  same_test false false = refl

  next_branching :
      (f : Flag) (v : Bool) → branch_id f v ≡ some opcode → next ≡ after (Entry.branch f v)
  unfolding next after perform ◌>>=◌ fetch
  next_branching f v e =
      next_branch m s f v opcode operand s.cpu e
      ∙ rw (same_test v (Ctl.get_flag f s.cpu.flags)) (branch_target _)

  next_entry :
      (e : Entry)
      → row_agrees opcode e ≡ true
      → opcode ≢ 0x00
      → opcode ≢ 0x40
      → (opcode ≡ 0x60 → s.cpu.sp < 254)
      → next ≡ after e
  unfolding row_agrees
  next_entry (Entry.impld Implied.brk) a no_brk no_rti fits = absurd (no_brk ((==_iff _ _).0 a))
  next_entry (Entry.impld Implied.jsr) a no_brk no_rti fits = next_jsr ((==_iff _ _).0 a)
  next_entry (Entry.impld Implied.jmp) a no_brk no_rti fits = next_jmp ((==_iff _ _).0 a)
  next_entry (Entry.impld Implied.jmp_ind) a no_brk no_rti fits =
      next_jmp_indirect ((==_iff _ _).0 a)
  next_entry (Entry.impld Implied.rts) a no_brk no_rti fits =
      let e = (==_iff opcode 0x60).0 a in next_rts e (fits e)
  next_entry (Entry.impld Implied.rti) a no_brk no_rti fits = absurd (no_rti ((==_iff _ _).0 a))
  next_entry (Entry.branch f v) a no_brk no_rti fits =
      next_branching f v (ground (arith, Option-cases (branch_id f v)))
  next_entry e a no_brk no_rti fits = next_plain e refl a

  next_unknown :
      lookup opcode instr_table ≡ none
      → next ≡ (perform_case ⦃env = env_of m⦄ none fetched).1.cpu.pc
  unfolding next perform_case fetch ◌>>=◌
  next_unknown missing = ground (
    arith,
    next_ordinary m s opcode operand s.cpu,
    all_below_sound _ 256 opcode unknown_agrees,
    m.bytes s.world s.cpu.pc,
  )

  next_case :
      (o : Option Entry)
      → lookup opcode instr_table ≡ o
      → opcode ≢ 0x00
      → opcode ≢ 0x40
      → (opcode ≡ 0x60 → s.cpu.sp < 254)
      → next ≡ (perform_case ⦃env = env_of m⦄ o fetched).1.cpu.pc
  next_case none missing no_brk no_rti fits = next_unknown missing
  next_case (some e) known no_brk no_rti fits =
      unfold perform_case after in
      next_entry e (lookup-all_rows row_agrees instr_table opcode e table_agrees known) no_brk
        no_rti fits

  next_run :
      (nmi irq : Bool)
      → nmi ≡ false
      → irq ≡ false
      → opcode ≢ 0x00
      → opcode ≢ 0x40
      → (opcode ≡ 0x60 → s.cpu.sp < 254)
      → next ≡ (run_with ⦃env = env_of m⦄ nmi irq s).1.cpu.pc
  unfolding run_with execute fetch ◌>>=◌
  next_run nmi irq no_nmi no_irq no_brk no_rti fits =
      rw (no_nmi, no_irq) (next_case (lookup opcode instr_table) refl no_brk no_rti fits)

-- Where reads have no effect and no interrupt is to be executed, `nextaddr` gives the program
-- counter that `run` arrives at, for every opcode but BRK and RTI; for RTS the stack pointer has to
-- be below 254.
pub nextaddr-run :
    {W : Type 0} (m : Memory W) (s : Machine W)
    → IsSized s
    → s.cpu.execnmi ≡ false
    → s.cpu.execirq ≡ false
    → m.peek s.world s.cpu.pc ≢ 0x00
    → m.peek s.world s.cpu.pc ≢ 0x40
    → (m.peek s.world s.cpu.pc ≡ 0x60 → s.cpu.sp < 254)
    → (nextaddr ⦃env = env_of m⦄ s).0 ≡ (run ⦃env = env_of m⦄ s).1.cpu.pc
unfolding nextaddr run next status ◌>>=◌
nextaddr-run m s h = next_run m s h s.cpu.execnmi s.cpu.execirq
