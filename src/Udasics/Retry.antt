-- ===== src/Udasics/Retry.antt =====
-- What `dasics_ufault_handler` does on each fault.
use lib_dasics.Base.{
  ℕ, ◌<◌, ◌≡◌, ◌≢◌, ◌⊎◌, inl, inr, Bool-cases, ==_iff, arith, Bool, true, false, some, ◌==◌,
}
use lib_dasics.Udasics.Table.{Entry, HashTable}
use lib_dasics.Udasics.State.{Dasics, minus_one}
use lib_dasics.Udasics.Libcfg.{ldst_checker}
use lib_dasics.Udasics.Slots.{slot_entry, IsLive}
use lib_dasics.Udasics.Invariant.{IsValid, entry_of}
use lib_dasics.Udasics.Fault.{Allows, IsRefused, ldst_checker_lem, ldst_checker-IsValid}
use lib_dasics.Udasics.Handler.{
  Frame, Handler, Handlers, Outcome, state_of, resumes, csr_dfreason, call_handler, ldst_fault,
  ufault_handler, dfr_load, dfr_store, dfr_jump, dfr_ecall,
}

module _ (H : HashTable) where
  -- The access is retried from a state in which a live register holds an entry of the table that
  -- allows it; the table and the other registers are as they were.
  abbrev pub IsRetried : ℕ → Bool → Frame → Dasics H.T → Outcome H.T → Type 0
  IsRetried rand is_read regs s o =
      let r = ldst_checker H rand regs.utval is_read s in
      (o ≡ resumes regs r.0)
      × (r.1 < 16)
      × (r.0.bounds_table ≡ s.bounds_table)
      × IsLive r.0 r.1
      × Allows regs.utval is_read (slot_entry r.0 r.1)
      × (entry_of H (slot_entry r.0 r.1).handle s ≡ some (slot_entry r.0 r.1))
      × ((i : ℕ) → i < 16 → i ≢ r.1 → slot_entry r.0 i ≡ slot_entry s i)

  -- No bound of the table allows the access, and the handler is asked in the same state.
  abbrev pub IsPassedOn : Bool → Handler H.T → Frame → Dasics H.T → Outcome H.T → Type 0
  IsPassedOn is_read h regs s o =
      (o ≡ call_handler h regs s)
      × ((k : ℕ) (e : Entry) → entry_of H k s ≡ some e → ¬ Allows regs.utval is_read e)

  ldst_fault_lem :
      (rand : ℕ) (is_read : Bool) (h : Handler H.T) (regs : Frame) (s : Dasics H.T)
      → IsValid H s
      → IsRetried rand is_read regs s (ldst_fault H rand is_read h regs s)
        ⊎ IsPassedOn is_read h regs s (ldst_fault H rand is_read h regs s)
  unfolding ldst_fault
  ldst_fault_lem rand is_read h regs s v = elim (ldst_checker_lem H rand regs.utval is_read s v) [
    | inl miss ↦ inr (rw (miss.0, ldst_fault), miss.1)
    | inr hit ↦ inl (ground (arith, hit.0), hit.0, hit.1, hit.2, hit.3, hit.4, hit.5)
  ]

  module _ (hs : Handlers H.T) (rand : ℕ) (regs : Frame) (s : Dasics H.T) (v : IsValid H s) where
    -- In a valid state, a load fault is retried after a register was loaded with an entry of the
    -- table that allows the read, and is live, and the table and the other registers are as they
    -- were; or no entry allows the read, and the load handler is asked in the same state. A store
    -- fault likewise, by writes.
    pub ufault_handler-ldst :
        (s.csr csr_dfreason ≡ dfr_load
          → IsRetried rand true regs s (ufault_handler H hs rand regs s)
            ⊎ IsPassedOn true hs.load regs s (ufault_handler H hs rand regs s))
        × (s.csr csr_dfreason ≡ dfr_store
            → IsRetried rand false regs s (ufault_handler H hs rand regs s)
              ⊎ IsPassedOn false hs.store regs s (ufault_handler H hs rand regs s))
    unfolding ufault_handler
    ufault_handler-ldst = (
      (λ e. rw (e, ufault_handler) (ldst_fault_lem rand true hs.load regs s v)),
      λ e. rw (e, ufault_handler) (ldst_fault_lem rand false hs.store regs s v),
    )

  abbrev pub Keeps : Handler H.T → Type 0
  Keeps h = (f : Frame) (t : Dasics H.T) → IsValid H t → IsValid H (h f t).state

  call_handler-IsValid :
      (h : Handler H.T) (regs : Frame) (s : Dasics H.T)
      → Keeps h
      → IsValid H s
      → IsValid H (state_of (call_handler h regs s))
  unfolding call_handler
  call_handler-IsValid h regs s keep v = elim (Bool-cases ((h regs s).error == minus_one)) [
    | inl y ↦ rw y (keep regs s v)
    | inr n ↦ rw n (keep regs s v)
  ]

  ldst_fault-IsValid :
      (rand : ℕ) (is_read : Bool) (h : Handler H.T) (regs : Frame) (s : Dasics H.T)
      → Keeps h
      → IsRefused regs.utval is_read s
      → IsValid H s
      → IsValid H (state_of (ldst_fault H rand is_read h regs s))
  ldst_fault-IsValid rand is_read h regs s keep refused v =
      elim (ldst_fault_lem rand is_read h regs s v) [
        | inl retried ↦ rw retried.0 (ldst_checker-IsValid H rand regs.utval is_read s v refused)
        | inr passed ↦ rw passed.0 (call_handler-IsValid h regs s keep v)
      ]

  -- A valid state is valid after `dasics_ufault_handler`, whether it resumes or exits, if the
  -- four handlers keep validity and no live register had allowed the load or store that faulted.
  pub ufault_handler-IsValid :
      (hs : Handlers H.T) (rand : ℕ) (regs : Frame) (s : Dasics H.T)
      → Keeps hs.ecall
      → Keeps hs.load
      → Keeps hs.store
      → Keeps hs.fetch
      → (s.csr csr_dfreason ≡ dfr_load → IsRefused regs.utval true s)
      → (s.csr csr_dfreason ≡ dfr_store → IsRefused regs.utval false s)
      → IsValid H s
      → IsValid H (state_of (ufault_handler H hs rand regs s))
  unfolding ufault_handler
  ufault_handler-IsValid hs rand regs s ke kl ks kf read write v =
      elim (Bool-cases (s.csr csr_dfreason == dfr_jump)) [
        | inl y ↦ rw y (call_handler-IsValid hs.fetch regs s kf v)
        | inr n ↦ rw n (elim (Bool-cases (s.csr csr_dfreason == dfr_load)) [
          | inl y ↦
              rw y (ldst_fault-IsValid rand true hs.load regs s kl (read ((==_iff _ _).0 y)) v)
          | inr n2 ↦ rw n2 (elim (Bool-cases (s.csr csr_dfreason == dfr_store)) [
            | inl y ↦
                rw y (ldst_fault-IsValid rand false hs.store regs s ks (write ((==_iff _ _).0 y)) v)
            | inr n3 ↦ rw n3 (elim (Bool-cases (s.csr csr_dfreason == dfr_ecall)) [
              | inl y ↦ rw y (call_handler-IsValid hs.ecall regs s ke v)
              | inr n4 ↦ rw n4 v
            ])
          ])
        ])
      ]
