-- ===== src/Udasics/Free.antt =====
-- `dasics_libcfg_free`: what it gives up and what it leaves.
use lib_dasics.Base.{
  ℕ, zero, suc, ◌+◌, ◌^◌, ◌≤◌, ◌<◌, ◌≡◌, ◌≢◌, ◌⊎◌, refl, arith, ◌==◌, if◌then◌else◌, Bool-cases,
  inl, inr, sym, ◌∙◌, Option, none, some,
}
use lib_dasics.Udasics.Table.{Entry, HashTable, find_handle-remove_handle}
use lib_dasics.Udasics.State.{Dasics, minus_one, csr_libcfg}
use lib_dasics.Udasics.Libcfg.{release, libcfg_free}
use lib_dasics.Udasics.Slots.{
  slot_entry, IsLive, IsLive-eq, clear_slot, slot_entry-clear_slot_ne, clear_slot-dead,
}
use lib_dasics.Udasics.Invariant.{IsAbsent, IsValid, entry_of, del-IsValid, clear_slot-IsValid}

-- The register that the loop of `dasics_libcfg_free` stops at.
pub marked_slot : ℕ → ℕ → ℕ → (ℕ → ℕ) → Option ℕ
marked_slot handle zero idx m = none
marked_slot handle (suc left) idx m =
    let rest = marked_slot handle left (idx + 1) m in if m idx == handle then some idx else rest

marked_slot-none :
    (handle left idx : ℕ) (m : ℕ → ℕ)
    → marked_slot handle left idx m ≡ none
    → (i : ℕ) → idx ≤ i
    → i < idx + left
    → m i ≢ handle
unfolding marked_slot
marked_slot-none handle zero idx m e i p q = absurd (omega arith)
marked_slot-none handle (suc left) idx m e i p q = λ z. ground (
  arith,
  marked_slot-none handle left (idx + 1) m,
  marked_slot-none handle left (idx + 1) m (ground arith) i,
)

pub marked_slot-some :
    (handle left idx : ℕ) (m : ℕ → ℕ) (i : ℕ)
    → marked_slot handle left idx m ≡ some i
    → (m i ≡ handle) × (idx ≤ i) × (i < idx + left)
unfolding marked_slot
marked_slot-some handle zero idx m i e = cc
marked_slot-some handle (suc left) idx m i e =
    ground (arith, marked_slot-some handle left (idx + 1) m i)

marked_slot-le :
    (handle left idx i : ℕ) (m : ℕ → ℕ)
    → m i ≡ handle
    → idx ≤ i
    → i < idx + left
    → (k : ℕ) × (marked_slot handle left idx m ≡ some k) × (k ≤ i)
unfolding marked_slot
marked_slot-le handle zero idx i m e p q = absurd (omega arith)
marked_slot-le handle (suc left) idx i m e p q = elim (Bool-cases (m idx == handle)) [
  | inl y ↦ (idx, rw y, p)
  | inr n ↦
      let (k, found, le) =
        marked_slot-le handle left (idx + 1) i m e (ground arith) (omega arith) in
      (k, rw n found, le)
]

module _ (H : HashTable) where
  -- The loop clears the register it stops at.
  pub release-eq :
      (handle left idx : ℕ) (s : Dasics H.T)
      → release H handle left idx s
        ≡ elim (marked_slot handle left idx s.handle_map) [ none ↦ s | some i ↦ clear_slot s i ]
  unfolding release marked_slot clear_slot
  release-eq handle zero idx s = refl
  release-eq handle (suc left) idx s = ground (arith, release-eq handle left (idx + 1) s)

  -- An unknown handle is refused, and nothing changes.
  pub libcfg_free-refused :
      (handle : ℕ) (s : Dasics H.T)
      → (2 ^ 31 ≤ handle) ⊎ (H.find handle s.bounds_table ≡ none)
      → libcfg_free H handle s ≡ (s, minus_one)
  unfolding libcfg_free
  libcfg_free-refused handle s h = ground arith

  module _ (handle : ℕ) (s : Dasics H.T) (e : Entry) (v : IsValid H s) (nz : handle ≢ 0)
      (found : entry_of H handle s ≡ some e) where
    handle-lt : handle < 2 ^ 31
    handle-lt = ground (arith, v.fresh handle, v.counter)

    freed : Option ℕ → Dasics H.T
    freed o = elim o [
      | none ↦ record s { bounds_table = H.del handle s.bounds_table }
      | some i ↦ clear_slot (record s { bounds_table = H.del handle s.bounds_table }) i
    ]

    slot : Option ℕ
    slot = marked_slot handle 16 0 s.handle_map

    libcfg_free-eq : libcfg_free H handle s ≡ (freed slot, 0)
    unfolding libcfg_free freed slot
    libcfg_free-eq =
        let hit = H.find-iter handle s.bounds_table v.distinct ∙ found in
        ground (
          arith,
          handle-lt,
          hit,
          release-eq handle 16 0 (record s { bounds_table = H.del handle s.bounds_table }),
        )

    freed-IsValid : (o : Option ℕ) → slot ≡ o → IsValid H (freed o) × IsAbsent handle (freed o)
    unfolding freed slot clear_slot
    freed-IsValid none e =
        let absent =
          λ (i : ℕ) (h : i < 16). marked_slot-none handle 16 0 s.handle_map e i (omega arith) h in
        (del-IsValid H v handle (λ _. absent), absent)
    freed-IsValid (some i) e =
        let (m, lo, hi) = marked_slot-some handle 16 0 s.handle_map i e in
        let absent : IsAbsent handle (clear_slot s i) =
          (λ j hj q. ground (arith, v.unique i j hi hj, handle-lt)) in
        (del-IsValid H (clear_slot-IsValid H v i hi) handle (λ _. absent), absent)

    freed-table : (o : Option ℕ) → (freed o).bounds_table ≡ H.del handle s.bounds_table
    unfolding freed clear_slot
    freed-table none = refl
    freed-table (some i) = refl

    freed-slot_ne :
        (o : Option ℕ)
        → slot ≡ o
        → (i : ℕ) → i < 16
        → s.handle_map i ≢ handle
        → slot_entry (freed o) i ≡ slot_entry s i
    unfolding freed slot slot_entry clear_slot
    freed-slot_ne none e i hi ne = refl
    freed-slot_ne (some j) e i hi ne =
        let (m, lo, hj) = marked_slot-some handle 16 0 s.handle_map j e in
        slot_entry-clear_slot_ne s j i hj hi (λ z. ground arith)

    freed-dead :
        (o : Option ℕ)
        → slot ≡ o
        → (i : ℕ) → i < 16
        → s.handle_map i ≡ handle
        → ¬ IsLive (freed o) i
    unfolding freed slot
    freed-dead none e i hi is =
        absurd (marked_slot-none handle 16 0 s.handle_map e i (omega arith) hi is)
    freed-dead (some j) e i hi is =
        let (m, lo, hj) = marked_slot-some handle 16 0 s.handle_map j e in
        let same : j ≡ i = ground (arith, v.unique i j hi hj, handle-lt) in
        rw (← same) (clear_slot-dead (record s { bounds_table = H.del handle s.bounds_table }) j hj)

    freed-unmarked :
        (o : Option ℕ)
        → slot ≡ o
        → (i : ℕ) → i < 16
        → s.handle_map i ≡ handle
        → (freed o).handle_map i ≡ minus_one
    unfolding freed slot clear_slot
    freed-unmarked none e i hi is =
        absurd (marked_slot-none handle 16 0 s.handle_map e i (omega arith) hi is)
    freed-unmarked (some j) e i hi is =
        let (m, lo, hj) = marked_slot-some handle 16 0 s.handle_map j e in
        let same : j ≡ i = ground (arith, v.unique i j hi hj, handle-lt) in ground (arith, same)

    -- To free a handle in use other than 0 leaves a valid state valid.
    pub libcfg_free-IsValid : IsValid H (libcfg_free H handle s).0
    libcfg_free-IsValid = rw libcfg_free-eq (freed-IsValid slot refl).0

    -- In a valid state, to free a handle in use other than 0 succeeds: the table loses that entry
    -- and no other, no register is marked with the handle, the registers that were not marked with
    -- it keep what they hold, and a register that was marked with it is no longer live and has the
    -- mark -1.
    pub libcfg_free_lem :
        let r = libcfg_free H handle s in
        (r.1 ≡ 0)
        × ((k : ℕ) → entry_of H k r.0 ≡ (if handle == k then none else entry_of H k s))
        × IsAbsent handle r.0
        × ((i : ℕ) → i < 16 → s.handle_map i ≢ handle → slot_entry r.0 i ≡ slot_entry s i)
        × ((i : ℕ)
            → i < 16
            → s.handle_map i ≡ handle
            → ¬ IsLive r.0 i × (r.0.handle_map i ≡ minus_one))
    libcfg_free_lem = rw libcfg_free-eq (
      refl,
      (λ k.
          rw (freed-table slot, H.iter-del handle s.bounds_table v.distinct)
            (find_handle-remove_handle handle k (H.iter s.bounds_table) v.distinct)),
      (freed-IsValid slot refl).1,
      freed-slot_ne slot refl,
      (λ i hi is. (freed-dead slot refl i hi is, freed-unmarked slot refl i hi is)),
    )

  -- Handle 0 is also the mark of registers that were never used. If such a register comes before
  -- the live register that holds the bounds of handle 0, to free handle 0 succeeds and leaves
  -- that register live with what it holds.
  libcfg_free-zero_stale :
      (s : Dasics H.T) (e : Entry) (i j : ℕ)
      → H.find 0 s.bounds_table ≡ some e
      → i < j
      → j < 16
      → s.handle_map i ≡ 0
      → IsLive s j
      → ((libcfg_free H 0 s).1 ≡ 0)
        × (slot_entry (libcfg_free H 0 s).0 j ≡ slot_entry s j)
        × IsLive (libcfg_free H 0 s).0 j
  unfolding libcfg_free slot_entry
  libcfg_free-zero_stale s e i j found lt hj zero_i live =
      let s' : Dasics H.T = record s { bounds_table = H.del 0 s.bounds_table } in
      let (k, first, le) =
        marked_slot-le 0 16 0 i s.handle_map zero_i (omega arith) (omega arith) in
      let cleared : release H 0 16 0 s' ≡ clear_slot s' k = ground (arith, release-eq 0 16 0 s') in
      let same = slot_entry-clear_slot_ne s' k j (omega arith) hj (λ z. omega arith) in
      rw (found, cleared) (refl, same, IsLive-eq (clear_slot s' k) s' j (sym same) live)

  release-csr :
      (handle left idx n : ℕ) (s : Dasics H.T)
      → n ≢ csr_libcfg
      → (release H handle left idx s).csr n ≡ s.csr n
  unfolding release
  release-csr handle zero idx n s ne = refl
  release-csr handle (suc left) idx n s ne =
      ground (arith, release-csr handle left (idx + 1) n s ne)

  -- No other control register is written.
  pub libcfg_free-csr :
      (handle n : ℕ) (s : Dasics H.T) → n ≢ csr_libcfg → (libcfg_free H handle s).0.csr n ≡ s.csr n
  unfolding libcfg_free
  libcfg_free-csr handle n s ne = ground (
    arith,
    release-csr handle 16 0 n (record s { bounds_table = H.del handle s.bounds_table }) ne,
  )

  release-counter :
      (handle left idx : ℕ) (s : Dasics H.T)
      → (release H handle left idx s).available_handle ≡ s.available_handle
  unfolding release
  release-counter handle zero idx s = refl
  release-counter handle (suc left) idx s = ground (arith, release-counter handle left (idx + 1) s)

  pub libcfg_free-counter :
      (handle : ℕ) (s : Dasics H.T)
      → (libcfg_free H handle s).0.available_handle ≡ s.available_handle
  unfolding libcfg_free
  libcfg_free-counter handle s =
      ground (
        arith,
        release-counter handle 16 0 (record s { bounds_table = H.del handle s.bounds_table }),
      )
