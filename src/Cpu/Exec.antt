-- ===== src/Cpu/Exec.antt =====
-- The member functions of `CPU` as actions on a machine: explicit state passing with `do` blocks.
use yanesemu.Cpu.State.{Cpu, Machine}

abbrev pub Exec : Type 0 → Type 0 → Type 0
Exec W A = Machine W → A × Machine W

module _ {W : Type 0} where
  pub pure : {A : Type 0} → A → Exec W A
  pure a s = (a, s)

  pub gets : {A : Type 0} → (Cpu → A) → Exec W A
  gets f s = (f s.cpu, s)

  pub modify : (Cpu → Cpu) → Exec W (Unit {0})
  modify f s = (tt, record s { cpu = f s.cpu })

  infixl 5 ◌>>=◌ ◌>>◌
  -- Opening this opens the primitive actions too.
  unfoldable pub ◌>>=◌ : {A B : Type 0} → Exec W A → (A → Exec W B) → Exec W B
  unfolding pure gets modify
  ◌>>=◌ m f s = let (a, t) = m s in f a t

  abbrev pub ◌>>◌ : {A B : Type 0} → Exec W A → Exec W B → Exec W B
  m >> k = m >>= λ _. k
