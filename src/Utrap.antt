-- ===== src/Utrap.antt =====
-- The default handlers of src/utrap/fetch.c and src/utrap/ldst.c, and the fault handler of the
-- first stages, src/start/fault.c.
use lib_dasics.Base.{
  ℕ, ◌%◌, ◌≡◌, ◌≢◌, refl, arith, bit_and, update, ◌==◌, if◌then◌else◌, Bool-cases, inl, inr, Option,
  none, some,
}
use lib_dasics.Word.Bits.{bit_and_mask}
use lib_dasics.Word.{add64}
use lib_dasics.Udasics.Table.{HashTable}
use lib_dasics.Udasics.State.{Dasics, Csrs}
use lib_dasics.Udasics.Handler.{Frame, Handler, csr_dfreason, dfr_jump, dfr_ecall}
use lib_dasics.Udasics.Invariant.{write_csr-IsValid}
use lib_dasics.Udasics.Retry.{Keeps}

-- `DasicsReturnPC` and `DasicsFreeZoneReturnPC`.
abbrev csr_return_pc : ℕ
csr_return_pc = 0x8b1

abbrev csr_free_zone_return_pc : ℕ
csr_free_zone_return_pc = 0x8b2

-- `handle_DasicsUFetchFault`
pub fetch_fault : {T : Type 0} → Handler T
fetch_fault regs s =
    if s.csr csr_return_pc == regs.utval
    then if s.csr csr_free_zone_return_pc == regs.utval
      then record { frame = regs; state = s; error = 0 }
      else record {
        frame = regs;
        state = record s { csr = update s.csr csr_free_zone_return_pc regs.utval };
        error = 0;
      }
    else record {
      frame = regs;
      state = record s { csr = update s.csr csr_return_pc regs.utval };
      error = 0;
    }

-- `handle_DasicsULoadFault` and `handle_DasicsUStoreFault`: `code` gives the 32 bits at an address,
-- whose low two tell the length of the instruction.
pub ldst_skip : {T : Type 0} → (ℕ → ℕ) → Handler T
ldst_skip code regs s = record {
  frame = record regs {
    uepc = if bit_and (code regs.uepc) 3 == 3 then add64 regs.uepc 4 else add64 regs.uepc 2;
  };
  state = s;
  error = 0;
}

-- The jump case of `dasics_start_fault`: both addresses are tested as they were read before.
return_to : ℕ → Csrs → Csrs
return_to utval csr =
    let csr1 = if csr csr_return_pc == utval then csr else update csr csr_return_pc utval in
    if csr csr_free_zone_return_pc == utval then csr1 else update csr1 csr_free_zone_return_pc utval

-- `dasics_start_fault`: `none` is the endless loop. `invoke` is the system call, by its frame.
start_fault : (Frame → ℕ) → Frame → Csrs → Option (Frame × Csrs)
start_fault invoke regs csr =
    let reason = csr csr_dfreason in
    let skipped : Frame = record regs { uepc = add64 regs.uepc 4 } in
    if reason == dfr_jump
    then some (regs, return_to regs.utval csr)
    else if reason == dfr_ecall
    then some (record skipped { a0 = invoke skipped }, csr)
    else none

-- A jump fault is answered by letting its target through: it is the return address afterwards
-- and, if it was before, the free-zone return address too; no other register and nothing of the
-- frame changes, and the result is 0, which does not end the process.
fetch_fault_lem :
    {T : Type 0} (regs : Frame) (s : Dasics T)
    → let r = fetch_fault regs s in
      (r.state.csr csr_return_pc ≡ regs.utval)
      × (s.csr csr_return_pc ≡ regs.utval → r.state.csr csr_free_zone_return_pc ≡ regs.utval)
      × ((n : ℕ) → n ≢ csr_return_pc → n ≢ csr_free_zone_return_pc → r.state.csr n ≡ s.csr n)
      × (r.frame ≡ regs)
      × (r.error ≡ 0)
unfolding fetch_fault
fetch_fault_lem regs s =
    (ground arith, (λ e. ground arith), (λ n p q. ground arith), ground arith, ground arith)

-- The default load and store handlers pass over the instruction that faulted, by 4 bytes if its
-- low two bits are set and by 2 if not; nothing else changes and the result is 0.
ldst_skip_lem :
    {T : Type 0} (code : ℕ → ℕ) (regs : Frame) (s : Dasics T)
    → let r = ldst_skip code regs s in
      (code regs.uepc % 4 ≡ 3 → r.frame ≡ record regs { uepc = add64 regs.uepc 4 })
      × (code regs.uepc % 4 ≢ 3 → r.frame ≡ record regs { uepc = add64 regs.uepc 2 })
      × (r.state ≡ s)
      × (r.error ≡ 0)
unfolding ldst_skip
ldst_skip_lem code regs s = (
  (λ e. ground (arith, bit_and_mask 2 (code regs.uepc))),
  (λ e. ground (arith, bit_and_mask 2 (code regs.uepc))),
  refl,
  refl,
)

module _ (H : HashTable) where
  -- The default handlers keep the bounds valid.
  pub fetch_fault-Keeps : Keeps H fetch_fault
  unfolding fetch_fault
  fetch_fault-Keeps f t v = elim (Bool-cases (t.csr csr_return_pc == f.utval)) [
    | inl y ↦ rw y (elim (Bool-cases (t.csr csr_free_zone_return_pc == f.utval)) [
      | inl y2 ↦ rw y2 v
      | inr n2 ↦
          rw n2 (
            write_csr-IsValid H v csr_free_zone_return_pc f.utval (omega arith) (inr (omega arith)))
    ])
    | inr n ↦ rw n (write_csr-IsValid H v csr_return_pc f.utval (omega arith) (inr (omega arith)))
  ]

  pub ldst_skip-Keeps : (code : ℕ → ℕ) → Keeps H (ldst_skip code)
  unfolding ldst_skip
  ldst_skip-Keeps code f t v = v
