-- ===== src/Udasics/Handler.antt =====
-- `dasics_ufault_handler` and the four `register_*_fault_handler` functions of
-- src/udasics/udasics.c, over the trap frame of include/utrap.h. A handler is a function of the
-- frame and the state; what is only printed is left out.
use lib_dasics.Base.{ℕ, ◌^◌, Bool, true, false, ◌&&◌, Option, none, some, ltb, ◌==◌, if◌then◌else◌}
use lib_dasics.Udasics.Table.{HashTable}
use lib_dasics.Udasics.State.{Dasics, minus_one}
use lib_dasics.Udasics.Libcfg.{ldst_checker}

-- `struct ucontext_trap`: the fields that the handlers use.
pub record Frame : Type 0 where
  pub uepc : ℕ
  pub utval : ℕ
  pub ucause : ℕ
  pub a0 : ℕ
  pub a1 : ℕ
  pub a2 : ℕ
  pub a3 : ℕ
  pub a4 : ℕ
  pub a5 : ℕ
  pub a6 : ℕ
  pub a7 : ℕ

-- `utrap_handler`: the frame and the state afterwards, and the `int` that it returns.
abbrev pub Handler : Type 0 → Type 0
Handler T = Frame → Dasics T → record { frame : Frame; state : Dasics T; error : ℕ }

-- The four static handler variables.
pub record Handlers (T : Type 0) : Type 0 where
  pub ecall : Handler T
  pub load : Handler T
  pub store : Handler T
  pub fetch : Handler T

-- The process goes on at the frame, or has called `exit(1)`.
pub data Outcome (T : Type 0) : Type 0 where
  resumes : Frame → Dasics T → Outcome T
  exits : Dasics T → Outcome T

-- The state that is left, either way.
abbrev pub state_of : {T : Type 0} → Outcome T → Dasics T
state_of (resumes f s) = s
state_of (exits s) = s

-- `DasicsDFreason` (include/utrap.h).
abbrev pub csr_dfreason : ℕ
csr_dfreason = 0x8b3

abbrev pub dfr_ecall : ℕ
dfr_ecall = 1

abbrev pub dfr_load : ℕ
dfr_load = 2

abbrev pub dfr_store : ℕ
dfr_store = 3

abbrev pub dfr_jump : ℕ
dfr_jump = 4

module _ {T : Type 0} where
  -- `if (handler != NULL)` the variable is set.
  register_ecall : Option (Handler T) → Handlers T → Handlers T
  register_ecall none hs = hs
  register_ecall (some h) hs = record hs { ecall = h }

  register_load : Option (Handler T) → Handlers T → Handlers T
  register_load none hs = hs
  register_load (some h) hs = record hs { load = h }

  register_store : Option (Handler T) → Handlers T → Handlers T
  register_store none hs = hs
  register_store (some h) hs = record hs { store = h }

  register_fetch : Option (Handler T) → Handlers T → Handlers T
  register_fetch none hs = hs
  register_fetch (some h) hs = record hs { fetch = h }

  -- The call of a handler, and the test of its result at the end.
  unfoldable pub call_handler : Handler T → Frame → Dasics T → Outcome T
  call_handler h regs s =
      let r = h regs s in if r.error == minus_one then exits r.state else resumes r.frame r.state

module _ (H : HashTable) where
  -- The cases of a load and a store fault: the table first, then the handler.
  unfoldable pub ldst_fault : ℕ → Bool → Handler H.T → Frame → Dasics H.T → Outcome H.T
  ldst_fault rand is_read h regs s =
      let r = ldst_checker H rand regs.utval is_read s in
      let idx = r.1 in
      if ltb idx (2 ^ 31) && ltb idx 16 then resumes regs r.0 else call_handler h regs r.0

  -- `dasics_ufault_handler`
  unfoldable pub ufault_handler : Handlers H.T → ℕ → Frame → Dasics H.T → Outcome H.T
  ufault_handler hs rand regs s =
      let reason = s.csr csr_dfreason in
      if reason == dfr_jump
      then call_handler hs.fetch regs s
      else if reason == dfr_load
      then ldst_fault rand true hs.load regs s
      else if reason == dfr_store
      then ldst_fault rand false hs.store regs s
      else if reason == dfr_ecall
      then call_handler hs.ecall regs s
      else exits s
