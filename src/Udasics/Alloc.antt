-- ===== src/Udasics/Alloc.antt =====
-- `dasics_libcfg_alloc`: what it does to the table and to the registers.
use lib_dasics.Base.{
  ℕ, zero, suc, ◌+◌, ◌^◌, ◌≤◌, ◌<◌, ◌≡◌, ◌≢◌, ◌⊎◌, refl, arith, bit_and, bit_or, ltb, ◌==◌,
  if◌then◌else◌, Bool-cases, all_below, all_below_sound, ◌&&◌, not, true, inl, inr, ◌∙◌, some,
}
use lib_dasics.Word.Bits.{bit_and_mask}
use lib_dasics.Udasics.Table.{Entry, HashTable}
use lib_dasics.Udasics.State.{libbound_write, Dasics, csr_libcfg, cfg_v, cfg_at, load_slot}
use lib_dasics.Udasics.Libcfg.{first_free, alloc_victim, new_entry, add_entry, libcfg_alloc}
use lib_dasics.Udasics.Slots.{slot_entry, IsLive, priv-IsLive, slot_entry-load_slot}
use lib_dasics.Udasics.Invariant.{
  IsAbsent, IsPriv, IsValid, entry_of, entry_of-add_entry, add_entry-IsValid, load_slot-IsValid,
}

-- The first register that is not live; past the last if there is none.
first_free_lem :
    (left idx libcfg : ℕ)
    → let i = first_free left idx libcfg in
      (idx ≤ i)
      × (i ≤ idx + left)
      × (i < idx + left → bit_and (cfg_at libcfg i) cfg_v ≡ 0)
      × ((j : ℕ) → idx ≤ j → j < i → bit_and (cfg_at libcfg j) cfg_v ≢ 0)
unfolding first_free
first_free_lem zero idx libcfg =
    (omega arith, omega arith, λ h. absurd (omega arith), λ j p q. absurd (omega arith))
first_free_lem (suc left) idx libcfg =
    let (lo, hi, dead, live) = first_free_lem left (idx + 1) libcfg in
    elim (Bool-cases (bit_and (cfg_at libcfg idx) cfg_v == 0)) [
      | inl e ↦ rw e (omega arith, omega arith, λ h. ground arith, λ j p q. absurd (omega arith))
      | inr e ↦
          rw e (
            omega arith,
            omega arith,
            λ h. dead (omega arith),
            λ j p q. λ z. ground (arith, live j),
          )
    ]

new_entry_table :
    all_below (λ x. ltb (bit_or x cfg_v) 16 && not (bit_and (bit_or x cfg_v) cfg_v == 0)) 16 ≡ true
unfolding all_below
new_entry_table = refl

new_entry-IsPriv : (cfg : ℕ) → IsPriv (bit_or (bit_and cfg 0xf) cfg_v)
new_entry-IsPriv cfg =
    let low : bit_and cfg 0xf < 16 = omega (arith, bit_and_mask 4 cfg) in
    let h =
      all_below_sound (λ x. ltb (bit_or x cfg_v) 16 && not (bit_and (bit_or x cfg_v) cfg_v == 0))
        new_entry_table (bit_and cfg 0xf) low in
    (ground arith, λ z. ground arith)

module _ (H : HashTable) (rand cfg lo hi : ℕ) (s : Dasics H.T) (v : IsValid H s)
    (room : s.available_handle + 1 < 2 ^ 31) where
  after : Dasics H.T
  after = (libcfg_alloc H rand cfg lo hi s).0

  made : Entry
  made = new_entry H cfg lo hi s

  victim : ℕ
  victim = alloc_victim rand (s.csr csr_libcfg)

  victim-lt : victim < 16
  unfolding victim alloc_victim
  victim-lt = let (a, b, c, d) = first_free_lem 16 0 (s.csr csr_libcfg) in ground arith

  made-IsAbsent : made.handle ≢ 0 → IsAbsent made.handle (add_entry H made s)
  unfolding made new_entry add_entry
  made-IsAbsent nz i hi e = ground (arith, v.marked i hi)

  made-found : entry_of H made.handle (add_entry H made s) ≡ some made
  unfolding made new_entry
  made-found = rw (entry_of-add_entry H v made refl) (ground arith)

  -- In a valid state whose handle counter is not at its last value, `dasics_libcfg_alloc` leaves
  -- a valid state: handles are unique and below the counter, and each live register whose mark is
  -- not 0 holds the bounds and permissions that the table has for its mark.
  pub libcfg_alloc-IsValid : IsValid H (libcfg_alloc H rand cfg lo hi s).0
  unfolding libcfg_alloc add_entry made new_entry victim
  libcfg_alloc-IsValid =
      load_slot-IsValid H (add_entry-IsValid H v made refl (new_entry-IsPriv cfg) room) made victim
        victim-lt made-found made-IsAbsent

  slot-after :
      (i : ℕ) → i < 16 → slot_entry after i ≡ (if victim == i then made else slot_entry s i)
  unfolding after libcfg_alloc add_entry made new_entry victim slot_entry
  slot-after i hi =
      slot_entry-load_slot (add_entry H made s) made victim i victim-lt hi (new_entry-IsPriv cfg).0

  entry-after :
      (k : ℕ) → entry_of H k after ≡ (if made.handle == k then some made else entry_of H k s)
  unfolding after libcfg_alloc load_slot made new_entry
  entry-after k = entry_of-add_entry H v made refl k

  evicts_when_full : IsLive s victim → (j : ℕ) → j < 16 → IsLive s j
  unfolding victim alloc_victim
  evicts_when_full live j hj =
      let (a, b, dead, all_live) = first_free_lem 16 0 (s.csr csr_libcfg) in
      λ z. ground (arith, all_live j)

  -- In a valid state whose handle counter is not at its last value, `dasics_libcfg_alloc` returns
  -- the next handle; afterwards the table has the new entry under it and is otherwise as it was.
  pub entry_of-libcfg_alloc :
      let r = libcfg_alloc H rand cfg lo hi s in
      (r.1 ≡ s.available_handle)
      × ((k : ℕ)
          → entry_of H k r.0
            ≡ (if r.1 == k then some (new_entry H cfg lo hi s) else entry_of H k s))
  unfolding after made libcfg_alloc
  entry_of-libcfg_alloc = (unfold new_entry in refl, entry-after)

  -- In a valid state whose handle counter is not at its last value, the new bound is in force
  -- afterwards in one register and the others are as they were; a live register is taken only
  -- when all are live.
  pub libcfg_alloc-slots :
      let s' = (libcfg_alloc H rand cfg lo hi s).0 in
      (i : ℕ) × (i < 16)
      × IsLive s' i
      × (slot_entry s' i ≡ new_entry H cfg lo hi s)
      × ((j : ℕ) → j < 16 → j ≢ i → slot_entry s' j ≡ slot_entry s j)
      × (IsLive s i → (j : ℕ) → j < 16 → IsLive s j)
  unfolding after made new_entry
  libcfg_alloc-slots = (
    victim,
    victim-lt,
    priv-IsLive after victim made (slot-after victim victim-lt ∙ ground arith)
        (new_entry-IsPriv cfg).1,
    (slot-after victim victim-lt ∙ ground arith),
    λ j hj ne. slot-after j hj ∙ ground arith,
    evicts_when_full,
  )

  -- Only the registers of the library bounds are written.
  pub libcfg_alloc-csr :
      (n : ℕ)
      → n ≢ csr_libcfg
      → (n < 0x890) ⊎ (0x8b0 ≤ n)
      → (libcfg_alloc H rand cfg lo hi s).0.csr n ≡ s.csr n
  unfolding libcfg_alloc add_entry load_slot libbound_write
  libcfg_alloc-csr n ne out = ground arith

  pub libcfg_alloc-counter :
      (libcfg_alloc H rand cfg lo hi s).0.available_handle ≡ s.available_handle + 1
  unfolding libcfg_alloc add_entry load_slot
  libcfg_alloc-counter = omega (arith, room)
