-- ===== src/Udasics/Invariant.antt =====
-- The registers as a cache of the bounds table: the invariant of src/udasics/udasics.c, kept by
-- every operation.
use lib_dasics.Base.{
  ℕ, ◌+◌, ◌^◌, ◌≤◌, ◌<◌, ◌≡◌, ◌≢◌, ◌⊎◌, refl, arith, bit_and, update, ◌==◌, if◌then◌else◌,
  Bool-cases, ==_iff, inl, inr, sym, Option, none, some,
}
use lib_dasics.Udasics.Table.{
  Entry, HashTable, Distinct, find_handle, find_handle-add, Distinct-add, find_handle-del,
  Distinct-del,
}
use lib_dasics.Word.Fields.{mask_field-lt}
use lib_dasics.Udasics.Libcfg.{add_entry}
use lib_dasics.Udasics.State.{Dasics, minus_one, csr_libcfg, cfg_v, load_slot}
use lib_dasics.Udasics.Slots.{
  slot_entry, IsLive, IsLive-eq, priv-IsLive, slot_entry-load_slot, load_slot-word, clear_slot,
  slot_entry-clear_slot_ne, clear_slot-dead,
}

-- Permission bits fit their four, and hold V.
abbrev pub IsPriv : ℕ → Type 0
IsPriv p = (p < 16) × (bit_and p cfg_v ≢ 0)

-- No register but those that were never used is marked with handle `h`.
abbrev pub IsAbsent : {T : Type 0} → ℕ → Dasics T → Type 0
IsAbsent h s = (i : ℕ) → i < 16 → s.handle_map i ≢ h

module _ (H : HashTable) where
  open H use {T, iter}

  abbrev pub entry_of : ℕ → Dasics T → Option Entry
  entry_of k s = find_handle k (iter s.bounds_table)

  -- Handles are unique, those in use lie below the counter, and a live register other than one
  -- marked with handle 0 holds the bounds and the permissions that the table has for its handle.
  pub record IsValid (s : Dasics T) : Type 0 where
    pub word : s.csr csr_libcfg < 2 ^ 64
    pub counter : s.available_handle < 2 ^ 31
    pub distinct : Distinct (iter s.bounds_table)
    pub fresh : (k : ℕ) → s.available_handle ≤ k → entry_of k s ≡ none
    pub priv : (k : ℕ) (e : Entry) → entry_of k s ≡ some e → IsPriv e.priv
    pub marked :
        (i : ℕ)
        → i < 16
        → s.handle_map i ≢ 0
        → s.handle_map i ≢ minus_one
        → s.handle_map i < s.available_handle
    pub unique :
        (i j : ℕ)
        → i < 16
        → j < 16
        → s.handle_map i ≡ s.handle_map j
        → s.handle_map i ≢ 0
        → s.handle_map i ≢ minus_one
        → i ≡ j
    pub in_use : (i : ℕ) → i < 16 → s.handle_map i ≢ 0 → s.handle_map i ≢ minus_one → IsLive s i
    pub held :
        (i : ℕ)
        → i < 16
        → IsLive s i
        → s.handle_map i ≢ 0
        → entry_of (s.handle_map i) s ≡ some (slot_entry s i)

  module _ {s : Dasics T} (v : IsValid s) where
    load_slot_held :
        (e : Entry) (i j : ℕ)
        → i < 16
        → j < 16
        → entry_of e.handle s ≡ some e
        → IsLive (load_slot (s.csr csr_libcfg) e i s) j
        → update s.handle_map i e.handle j ≢ 0
        → entry_of (update s.handle_map i e.handle j) s
          ≡ some (slot_entry (load_slot (s.csr csr_libcfg) e i s) j)
    load_slot_held e i j hi hj found live nz =
        let p = v.priv e.handle e found in
        let same = slot_entry-load_slot s e i j hi hj p.0 in
        elim (Bool-cases (i == j)) [
          | inl y ↦ rw (same, y) found
          | inr n ↦
              let eq : slot_entry (load_slot (s.csr csr_libcfg) e i s) j ≡ slot_entry s j =
                (rw n at same) in
              rw (eq, n) (v.held j hj (IsLive-eq s _ j eq live) (rw n at nz))
        ]

    load_slot_in_use :
        (e : Entry) (i j : ℕ)
        → i < 16
        → j < 16
        → entry_of e.handle s ≡ some e
        → update s.handle_map i e.handle j ≢ 0
        → update s.handle_map i e.handle j ≢ minus_one
        → IsLive (load_slot (s.csr csr_libcfg) e i s) j
    load_slot_in_use e i j hi hj found nz nm =
        let t = load_slot (s.csr csr_libcfg) e i s in
        let p = v.priv e.handle e found in
        let same = slot_entry-load_slot s e i j hi hj p.0 in
        elim (Bool-cases (i == j)) [
          | inl y ↦ priv-IsLive t j e (rw y at same) p.1
          | inr n ↦ IsLive-eq t s j (sym (rw n at same)) (v.in_use j hj (rw n at nz) (rw n at nm))
        ]

    -- Loading an entry of the table that no register holds.
    pub load_slot-IsValid :
        (e : Entry) (i : ℕ)
        → i < 16
        → entry_of e.handle s ≡ some e
        → (e.handle ≢ 0 → IsAbsent e.handle s)
        → IsValid (load_slot (s.csr csr_libcfg) e i s)
    unfolding load_slot
    load_slot-IsValid e i hi found absent = record {
      word = load_slot-word s e i v.word;
      counter = v.counter;
      distinct = v.distinct;
      fresh = v.fresh;
      priv = v.priv;
      marked = λ j hj nz nm. ground (arith, v.marked j hj, v.fresh e.handle);
      unique = λ j k hj hk eq nz nm. ground (
        arith,
        v.unique j k hj hk,
        absent,
        λ (a : e.handle ≢ 0). absent a j hj,
        λ (a : e.handle ≢ 0). absent a k hk,
      );
      in_use = λ j hj nz nm. load_slot_in_use e i j hi hj found nz nm;
      held = λ j hj live nz. load_slot_held e i j hi hj found live nz;
    }

    pub entry_of-add_entry :
        (e : Entry)
        → e.handle ≡ s.available_handle
        → (k : ℕ) → entry_of k (add_entry H e s) ≡ (if e.handle == k then some e else entry_of k s)
    unfolding add_entry
    entry_of-add_entry e h =
        find_handle-add H s.bounds_table v.distinct e (v.fresh e.handle (omega arith))

    -- Adding an entry under the next handle.
    pub add_entry-IsValid :
        (e : Entry)
        → e.handle ≡ s.available_handle
        → IsPriv e.priv
        → s.available_handle + 1 < 2 ^ 31
        → IsValid (add_entry H e s)
    unfolding add_entry slot_entry
    add_entry-IsValid e h p room =
        let looked = entry_of-add_entry e h in
        record {
          word = v.word;
          counter = omega arith;
          distinct = Distinct-add H s.bounds_table v.distinct e (v.fresh e.handle (omega arith));
          fresh = λ k hk. ground (arith, looked k, v.fresh k);
          priv = λ k x found.
              let q = looked k in (ground (arith, v.priv k x), ground (arith, v.priv k x));
          marked = λ j hj nz nm. ground (arith, v.marked j hj);
          unique = v.unique;
          in_use = v.in_use;
          held = λ j hj live nz.
              ground (arith, v.held j hj, v.fresh (s.handle_map j), looked (s.handle_map j));
        }

    -- Deleting an entry of the table whose handle no register is marked with.
    pub del-IsValid :
        (h : ℕ)
        → (h ≢ 0 → IsAbsent h s)
        → IsValid (record s { bounds_table = H.del h s.bounds_table })
    unfolding slot_entry
    del-IsValid h absent =
        let looked = find_handle-del H s.bounds_table v.distinct h in
        record {
          word = v.word;
          counter = v.counter;
          distinct = Distinct-del H s.bounds_table v.distinct h;
          fresh = λ k hk. ground (arith, looked k, v.fresh k);
          priv = λ k x found.
              let q = looked k in (ground (arith, v.priv k x), ground (arith, v.priv k x));
          marked = v.marked;
          unique = v.unique;
          in_use = v.in_use;
          held = λ j hj live nz.
              ground (arith, v.held j hj, looked (s.handle_map j), λ (a : h ≢ 0). absent a j hj);
        }

    clear_slot_held :
        (i j : ℕ)
        → i < 16
        → j < 16
        → IsLive (clear_slot s i) j
        → update s.handle_map i minus_one j ≢ 0
        → entry_of (update s.handle_map i minus_one j) s ≡ some (slot_entry (clear_slot s i) j)
    clear_slot_held i j hi hj live nz = elim (Bool-cases (i == j)) [
      | inl y ↦
          let e : i ≡ j = (==_iff i j).0 y in absurd (clear_slot-dead s i hi (rw (← e) at live))
      | inr n ↦
          let ne : i ≢ j = ground arith in
          let eq = slot_entry-clear_slot_ne s i j hi hj ne in
          rw (eq, n) (v.held j hj (IsLive-eq s _ j eq live) (rw n at nz))
    ]

    clear_slot_in_use :
        (i j : ℕ)
        → i < 16
        → j < 16
        → update s.handle_map i minus_one j ≢ 0
        → update s.handle_map i minus_one j ≢ minus_one
        → IsLive (clear_slot s i) j
    clear_slot_in_use i j hi hj nz nm = elim (Bool-cases (i == j)) [
      | inl y ↦ absurd (nm (rw y refl))
      | inr n ↦
          let same = slot_entry-clear_slot_ne s i j hi hj (ground arith) in
          IsLive-eq (clear_slot s i) s j (sym same) (v.in_use j hj (rw n at nz) (rw n at nm))
    ]

    -- Clearing a register.
    pub clear_slot-IsValid : (i : ℕ) → i < 16 → IsValid (clear_slot s i)
    unfolding clear_slot
    clear_slot-IsValid i hi = record {
      word = mask_field-lt 4 (s.csr csr_libcfg) i cfg_v v.word;
      counter = v.counter;
      distinct = v.distinct;
      fresh = v.fresh;
      priv = v.priv;
      marked = λ j hj nz nm. ground (arith, v.marked j hj);
      unique = λ j k hj hk eq nz nm. ground (arith, v.unique j k hj hk);
      in_use = λ j hj nz nm. clear_slot_in_use i j hi hj nz nm;
      held = λ j hj live nz. clear_slot_held i j hi hj live nz;
    }

    -- A write to any register other than those of the library bounds.
    pub write_csr-IsValid :
        (n x : ℕ)
        → n ≢ csr_libcfg
        → (n < 0x890) ⊎ (0x8b0 ≤ n)
        → IsValid (record s { csr = update s.csr n x })
    unfolding slot_entry
    write_csr-IsValid n x p q = record {
      word = ground (arith, v.word);
      counter = v.counter;
      distinct = v.distinct;
      fresh = v.fresh;
      priv = v.priv;
      marked = v.marked;
      unique = v.unique;
      in_use = λ j hj nz nm z. ground (arith, v.in_use j hj nz nm);
      held = λ j hj live nz. ground (arith, v.held j hj);
    }
