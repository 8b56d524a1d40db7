-- ===== src/Syscall.antt =====
-- src/udasics/usyscall.c and src/utrap/ecall.c: the table of checks for system calls, and the
-- handler of an environment-call fault. `n` is `__NR_syscalls`, which the system's headers give.
pub mod Registered
use lib_dasics.Base.{
  ℕ, zero, suc, ◌+◌, ◌^◌, ◌≤◌, ◌<◌, ◌≡◌, ◌≢◌, refl, arith, update, ltb, leb, ◌==◌, ◌||◌, ◌&&◌,
  if◌then◌else◌, Bool-cases, inl, inr, Option, none, some,
}
use lib_dasics.Word.{add64}
use lib_dasics.Udasics.State.{Dasics, minus_one, is_negative}
use lib_dasics.Udasics.Handler.{Frame}

-- `ecall_check_handler`: eight arguments and an answer; it may change the state. A check that does
-- not return, as one that ends the process, is not modelled.
abbrev pub Check : Type 0 → Type 0
Check T = (a0 a1 a2 a3 a4 a5 a6 a7 : ℕ) → Dasics T → Dasics T × ℕ

-- `ecall_error_handler`
abbrev ErrorHandler : Type 0 → Type 0
ErrorHandler T = Dasics T → Dasics T × ℕ

-- `ecall_check_t`; a cell of the zeroed table holds null pointers.
pub record EcallCheck (T : Type 0) : Type 0 where
  pub check : Option (Check T)
  pub handle_error : Option (ErrorHandler T)

abbrev pub Table : Type 0 → Type 0
Table T = ℕ → EcallCheck T

-- `if (handler)` replace the pointer.
abbrev pub or_old {ℓ} : {A : Type ℓ} → Option A → Option A → Option A
or_old none old = old
or_old (some a) old = some a

module _ {T : Type 0} where
  -- `default_ecall_check_handler` and `default_ecall_error_handler` do nothing and answer 0.
  pub default_check : Check T
  default_check a0 a1 a2 a3 a4 a5 a6 a7 s = (s, 0)

  pub default_error_handler : ErrorHandler T
  default_error_handler s = (s, 0)

  -- The loop of `init_syscall_check`, with `left` rounds left.
  init_from : ℕ → ℕ → Table T → Table T
  init_from zero i table = table
  init_from (suc left) i table = init_from left (i + 1) (
      update table i
        (record { check = some default_check; handle_error = some default_error_handler }))

  pub init_syscall_check : ℕ → Table T → Table T
  init_syscall_check n table = init_from n 0 table

  -- `register_syscall_check`; `sysno` is the bit pattern of an `int`.
  pub register_syscall_check :
      ℕ → ℕ → Option (Check T) → Option (ErrorHandler T) → Table T → Table T × ℕ
  register_syscall_check n sysno check error table =
      if leb n sysno || is_negative sysno then (table, minus_one) else (
        update table sysno (record {
          check = or_old check (table sysno).check;
          handle_error = or_old error (table sysno).handle_error;
        }),
        0,
      )

  -- `handle_DasicsUEcallFault`: a read past the table, or a call of a null pointer, is `none`. The
  -- answer of the check is dropped, and `handle_error` is not called.
  pub ecall_fault : ℕ → Table T → Frame → Dasics T → Option (Frame × Dasics T × ℕ)
  ecall_fault n table regs s = if leb n regs.a7 then none else elim (table regs.a7).check [
    | none ↦ none
    | some check ↦ some (
      record regs { uepc = add64 regs.uepc 4 },
      (check regs.a0 regs.a1 regs.a2 regs.a3 regs.a4 regs.a5 regs.a6 regs.a7 s).0,
      0,
    )
  ]

  init_from-get :
      (left i : ℕ) (table : Table T) (k : ℕ)
      → init_from left i table k ≡ (
          if leb i k && ltb k (i + left)
          then record { check = some default_check; handle_error = some default_error_handler }
          else table k)
  unfolding init_from
  init_from-get zero i table k = ground arith
  init_from-get (suc left) i table k = rw (init_from-get left (i + 1)) (ground arith)

  -- After `init_syscall_check` the first `n` cells have the defaults, and no other is written.
  pub init_syscall_check-get :
      (n : ℕ) (table : Table T) (k : ℕ)
      → init_syscall_check n table k ≡ (
          if ltb k n
          then record { check = some default_check; handle_error = some default_error_handler }
          else table k)
  unfolding init_syscall_check
  init_syscall_check-get n table k = rw (init_from-get n 0 table k) (ground arith)

  -- With a table of at most 2 ^ 31 cells, a number out of range, or negative, is refused with -1
  -- and nothing changes; otherwise the cell of that number takes the handlers that are given,
  -- keeps its own for those that are null, and the other cells are as they were.
  register_syscall_check_lem :
      (n sysno : ℕ) (check : Option (Check T)) (error : Option (ErrorHandler T)) (table : Table T)
      → n ≤ 2 ^ 31
      → let r = register_syscall_check n sysno check error table in
        (n ≤ sysno → r ≡ (table, minus_one))
        × (sysno < n
            → (r.1 ≡ 0)
              × ((r.0 sysno).check ≡ or_old check (table sysno).check)
              × ((r.0 sysno).handle_error ≡ or_old error (table sysno).handle_error)
              × ((k : ℕ) → k ≢ sysno → r.0 k ≡ table k))
  unfolding register_syscall_check
  register_syscall_check_lem n sysno check error table h =
      ((λ p. ground arith), λ p. (ground arith, ground arith, ground arith, λ k ne. ground arith))
