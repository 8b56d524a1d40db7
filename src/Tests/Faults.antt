-- ===== src/Tests/Faults.antt =====
-- Faults of a process with two bounds, under the default handlers.
use lib_dasics.Base.{
  ℕ, ◌≡◌, ◌⊎◌, inr, refl, arith, List, true, false, update, leb, all_below, all_below_sound,
}
use lib_dasics.Udasics.Table.{Entry, list_table}
use lib_dasics.Udasics.State.{Dasics}
use lib_dasics.Udasics.Slots.{slot_entry}
use lib_dasics.Udasics.Invariant.{IsValid, write_csr-IsValid}
use lib_dasics.Udasics.Fault.{IsRefused}
use lib_dasics.Udasics.Handler.{
  Frame, Handlers, state_of, csr_dfreason, dfr_load, dfr_store, ufault_handler,
}
use lib_dasics.Udasics.Retry.{IsRetried, IsPassedOn, ufault_handler-ldst, ufault_handler-IsValid}
use lib_dasics.Utrap.{fetch_fault, ldst_skip, fetch_fault-Keeps, ldst_skip-Keeps}
use lib_dasics.Tests.Samples.{program, two, two-IsValid}

abbrev frame : Frame
frame = record {
  uepc = 0x4000;
  utval = 0x9000;
  ucause = 24;
  a0 = 0;
  a1 = 0;
  a2 = 0;
  a3 = 0;
  a4 = 0;
  a5 = 0;
  a6 = 0;
  a7 = 0;
}

-- Memory of instructions of 4 bytes.
abbrev code : ℕ → ℕ
code a = 3

abbrev handlers : Handlers (List Entry)
handlers = record {
  ecall = ldst_skip code;
  load = ldst_skip code;
  store = ldst_skip code;
  fetch = fetch_fault;
}

abbrev faulted : Dasics (List Entry)
faulted = record two { csr = update two.csr csr_dfreason dfr_load }

faulted-IsValid : IsValid list_table faulted
faulted-IsValid =
    write_csr-IsValid list_table two-IsValid csr_dfreason dfr_load (omega arith) (inr (omega arith))

nothing_there : IsRefused 0x9000 true faulted
unfolding program all_below
nothing_there i hi live (lo, below, perm) =
    ground
      (arith, all_below_sound (λ j. leb (slot_entry faulted j).hi 0x9000) {bound = 16} refl i hi)

ufault_handler-ldst_example :
    (faulted.csr csr_dfreason ≡ dfr_load
      → IsRetried list_table 5 true frame faulted
          (ufault_handler list_table handlers 5 frame faulted)
        ⊎ IsPassedOn list_table true handlers.load frame faulted
            (ufault_handler list_table handlers 5 frame faulted))
    × (faulted.csr csr_dfreason ≡ dfr_store
        → IsRetried list_table 5 false frame faulted
            (ufault_handler list_table handlers 5 frame faulted)
          ⊎ IsPassedOn list_table false handlers.store frame faulted
              (ufault_handler list_table handlers 5 frame faulted))
ufault_handler-ldst_example =
    ufault_handler-ldst list_table handlers 5 frame faulted faulted-IsValid

not_a_store : faulted.csr csr_dfreason ≡ dfr_store → IsRefused 0x9000 false faulted
not_a_store e = absurd (omega arith)

ufault_handler-IsValid_example :
    IsValid list_table (state_of (ufault_handler list_table handlers 5 frame faulted))
ufault_handler-IsValid_example =
    ufault_handler-IsValid list_table handlers 5 frame faulted (ldst_skip-Keeps list_table code)
      (ldst_skip-Keeps list_table code) (ldst_skip-Keeps list_table code)
      (fetch_fault-Keeps list_table) (λ e. nothing_there) not_a_store faulted-IsValid
