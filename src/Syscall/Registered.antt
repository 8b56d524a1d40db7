-- ===== src/Syscall/Registered.antt =====
-- What the handler of an environment call does after checks were registered: src/utrap/ecall.c on
-- the table that src/udasics/usyscall.c fills.
use lib_dasics.Base.{
  ℕ, ◌^◌, ◌≤◌, ◌<◌, ◌≡◌, refl, arith, ltb, leb, ◌==◌, ◌||◌, if◌then◌else◌, Bool-cases, inl, inr,
  Option, none, some, false, true, List, [], ◌∷◌,
}
use lib_dasics.Word.{add64}
use lib_dasics.Udasics.State.{Dasics, is_negative}
use lib_dasics.Udasics.Handler.{Frame}
use lib_dasics.Syscall.{
  Check, ErrorHandler, Table, or_old, default_check, init_syscall_check, init_syscall_check-get,
  register_syscall_check, ecall_fault,
}

-- The arguments of one call of `register_syscall_check`.
pub record Registration (T : Type 0) : Type 0 where
  pub sysno : ℕ
  pub check : Option (Check T)
  pub handle_error : Option (ErrorHandler T)

or_old-some :
    {A : Type 0} (o : Option A) (d : A)
    → or_old o (some d) ≡ some (elim o [ none ↦ d | some a ↦ a ])
or_old-some none d = refl
or_old-some (some a) d = refl

or_old_assoc : {A : Type 0} (a b c : Option A) → or_old a (or_old b c) ≡ or_old (or_old a b) c
or_old_assoc none b c = refl
or_old_assoc (some x) b c = refl

module _ {T : Type 0} where
  -- The table after calls of `register_syscall_check`, one after the other.
  pub registered : ℕ → List (Registration T) → Table T → Table T
  registered n [] table = table
  registered n (r ∷ rs) table =
      registered n rs (register_syscall_check n r.sysno r.check r.handle_error table).0

  -- The check of the last registration that gives one for the number.
  unfoldable pub last_check : ℕ → List (Registration T) → Option (Check T)
  last_check k [] = none
  last_check k (r ∷ rs) = or_old (last_check k rs) (if r.sysno == k then r.check else none)

  -- The check that runs for a number: the last one registered for it, or the default.
  abbrev check_of : ℕ → List (Registration T) → Check T
  check_of k rs = elim (last_check k rs) [ none ↦ default_check | some c ↦ c ]

  register_syscall_check-check :
      (n k : ℕ) (r : Registration T) (table : Table T)
      → n ≤ 2 ^ 31
      → k < n
      → ((register_syscall_check n r.sysno r.check r.handle_error table).0 k).check
        ≡ or_old (if r.sysno == k then r.check else none) (table k).check
  unfolding register_syscall_check
  register_syscall_check-check n k r table h hk = elim (Bool-cases (r.sysno == k)) [
    | inl y ↦
        let here : r.sysno ≡ k = ground arith in
        let fine : (leb n r.sysno || is_negative r.sysno) ≡ false = ground arith in
        rw (fine, here) (ground arith)
    | inr f ↦ elim (Bool-cases (leb n r.sysno || is_negative r.sysno)) [
      | inl y ↦ rw (y, f) refl
      | inr g ↦ rw (g, f) (ground arith)
    ]
  ]

  registered-check :
      (n k : ℕ) (rs : List (Registration T)) (table : Table T)
      → n ≤ 2 ^ 31
      → k < n
      → (registered n rs table k).check ≡ or_old (last_check k rs) (table k).check
  unfolding registered last_check
  registered-check n k [] table h hk = refl
  registered-check n k (r ∷ rs) table h hk =
      let now = register_syscall_check n r.sysno r.check r.handle_error table in
      rw (registered-check n k rs now.0 h hk, register_syscall_check-check n k r table h hk)
        (or_old_assoc (last_check k rs) (if r.sysno == k then r.check else none) (table k).check)

  registered_is :
      (n k : ℕ) (rs : List (Registration T)) (table : Table T)
      → n ≤ 2 ^ 31
      → k < n
      → (registered n rs (init_syscall_check n table) k).check ≡ some (check_of k rs)
  registered_is n k rs table h hk =
      let in_table : ltb k n ≡ true = ground arith in
      rw
        (
          registered-check n k rs (init_syscall_check n table) h hk,
          init_syscall_check-get n table k,
          in_table,
        )
        (or_old-some (last_check k rs) default_check)

  -- With a table of at most 2 ^ 31 cells, after `init_syscall_check` and any registrations, an
  -- environment call whose number lies in the table runs, on the call's eight arguments, the last
  -- check that was registered for its number by a call with a check that is not null, or the
  -- default check if there is none; registrations for other numbers and refused ones do not
  -- matter. If that check returns, whatever it answers, the handler returns 0 with `uepc` moved
  -- past the instruction, which is where ecall.c says "unreachable", and on which
  -- `invoke_syscall` of trap_entry.S performs the call.
  pub ecall_fault-registered :
      (n : ℕ) (table : Table T) (rs : List (Registration T)) (regs : Frame) (s : Dasics T)
      → n ≤ 2 ^ 31
      → regs.a7 < n
      → ecall_fault n (registered n rs (init_syscall_check n table)) regs s
        ≡ some (
          record regs { uepc = add64 regs.uepc 4 },
          (check_of regs.a7 rs regs.a0 regs.a1 regs.a2 regs.a3 regs.a4 regs.a5 regs.a6 regs.a7 s).0,
          0,
        )
  unfolding ecall_fault
  ecall_fault-registered n table rs regs s h hk =
      let in_range : leb n regs.a7 ≡ false = ground arith in
      rw (in_range, registered_is n regs.a7 rs table h hk) refl
