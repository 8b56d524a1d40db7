-- ===== src/Udasics/Fault.antt =====
-- `dasics_ldst_checker`: a faulting access is looked up in the table.
use lib_dasics.Base.{
  ℕ, ◌%◌, ◌^◌, ◌≤◌, ◌<◌, ◌≡◌, ◌≢◌, ◌⊎◌, refl, arith, bit_and, Bool, true, false, inl, inr, ◌∙◌,
  Option, none, some, List, [], ◌∷◌,
}
use lib_dasics.Udasics.Table.{Entry, HashTable, Distinct, find_handle}
use lib_dasics.Udasics.State.{Dasics, minus_one, csr_libcfg, load_slot}
use lib_dasics.Udasics.Libcfg.{matches, find_match, valid_perm, ldst_checker}
use lib_dasics.Udasics.Slots.{slot_entry, IsLive, priv-IsLive, slot_entry-load_slot}
use lib_dasics.Udasics.Invariant.{IsAbsent, IsValid, entry_of, load_slot-IsValid}

-- The entry covers the address, and its permissions have V and R, for a read, or V and W.
abbrev pub Allows : ℕ → Bool → Entry → Type 0
Allows utval is_read e =
    (e.lo ≤ utval) × (utval < e.hi) × (bit_and e.priv (valid_perm is_read) ≡ valid_perm is_read)

matches-Allows :
    (utval : ℕ) (is_read : Bool) (e : Entry)
    → matches utval (valid_perm is_read) e ≡ true
    → Allows utval is_read e
unfolding matches
matches-Allows utval is_read e m = (ground arith, ground arith, ground arith)

not_matches-Allows :
    (utval : ℕ) (is_read : Bool) (e : Entry)
    → matches utval (valid_perm is_read) e ≡ false
    → ¬ Allows utval is_read e
unfolding matches
not_matches-Allows utval is_read e m (lo, hi, perm) = ground arith

-- The walk finds an entry that matches, under its own handle.
find_match-some :
    (utval perm : ℕ) (es : List Entry) (e : Entry)
    → Distinct es
    → find_match utval perm es ≡ some e
    → (matches utval perm e ≡ true) × (find_handle e.handle es ≡ some e)
unfolding find_match find_handle
find_match-some utval perm [] e d h = cc
find_match-some utval perm (x ∷ es) e d h = (
  ground (arith, find_match-some utval perm es e d.1),
  ground (arith, find_match-some utval perm es e d.1),
)

-- It misses only if no entry matches.
find_match-none :
    (utval perm : ℕ) (es : List Entry)
    → find_match utval perm es ≡ none
    → (k : ℕ) (e : Entry) → find_handle k es ≡ some e
    → matches utval perm e ≡ false
unfolding find_match find_handle
find_match-none utval perm [] h k e found = cc
find_match-none utval perm (x ∷ es) h k e found =
    ground (arith, find_match-none utval perm es (ground arith) k e)

-- No register lets the access through: what the hardware found when it raised the fault.
abbrev pub IsRefused : {T : Type 0} → ℕ → Bool → Dasics T → Type 0
IsRefused utval is_read s = (i : ℕ) → i < 16 → IsLive s i → ¬ Allows utval is_read (slot_entry s i)

module _ (H : HashTable) (rand utval : ℕ) (is_read : Bool) (s : Dasics H.T) (v : IsValid H s) where
  walked : Option Entry
  walked = find_match utval (valid_perm is_read) (H.iter s.bounds_table)

  result_of : Option Entry → Dasics H.T × ℕ
  result_of none = (s, minus_one)
  result_of (some e) = (load_slot (s.csr csr_libcfg) e (rand % 16) s, rand % 16)

  ldst_checker-eq : ldst_checker H rand utval is_read s ≡ result_of walked
  unfolding ldst_checker result_of walked
  ldst_checker-eq = ground arith

  -- Register `r.1` of `r.0` now has an entry of the table that allows the access, and the others
  -- are as they were.
  abbrev pub IsHit : Dasics H.T × ℕ → Type 0
  IsHit r =
      (r.1 < 16)
      × (r.0.bounds_table ≡ s.bounds_table)
      × IsLive r.0 r.1
      × Allows utval is_read (slot_entry r.0 r.1)
      × (entry_of H (slot_entry r.0 r.1).handle s ≡ some (slot_entry r.0 r.1))
      × ((i : ℕ) → i < 16 → i ≢ r.1 → slot_entry r.0 i ≡ slot_entry s i)

  loaded-IsHit : (e : Entry) → walked ≡ some e → IsHit (result_of (some e))
  unfolding result_of walked load_slot
  loaded-IsHit e found =
      let (ok, in_table) =
        find_match-some utval (valid_perm is_read) (H.iter s.bounds_table) e v.distinct found in
      let p = v.priv e.handle e in_table in
      let i = rand % 16 in
      let hi : i < 16 = omega arith in
      let t = load_slot (s.csr csr_libcfg) e i s in
      let same : slot_entry t i ≡ e = slot_entry-load_slot s e i i hi hi p.0 ∙ ground arith in
      (
        hi,
        refl,
        priv-IsLive t i e same p.1,
        rw same (matches-Allows utval is_read e ok),
        rw same in_table,
        λ j hj ne. slot_entry-load_slot s e i j hi hj p.0 ∙ ground arith,
      )

  -- A miss: nothing changes, and no bound of the table allows the access. A hit: as above.
  result_of_lem :
      (o : Option Entry)
      → walked ≡ o
      → ((result_of o ≡ (s, minus_one))
          × ((k : ℕ) (e : Entry) → entry_of H k s ≡ some e → ¬ Allows utval is_read e))
        ⊎ IsHit (result_of o)
  unfolding result_of walked
  result_of_lem none e = inl (
    refl,
    λ k x found.
        not_matches-Allows utval is_read x
          (find_match-none utval (valid_perm is_read) (H.iter s.bounds_table) e k x found),
  )
  result_of_lem (some x) e = inr (loaded-IsHit x e)

  -- In a valid state, either no bound of the table allows the access, and `dasics_ldst_checker`
  -- answers -1 and changes nothing, or it loads into the register that it returns an entry of the
  -- table that allows the access, and changes neither the table nor another register.
  pub ldst_checker_lem :
      let r = ldst_checker H rand utval is_read s in
      ((r ≡ (s, minus_one))
        × ((k : ℕ) (e : Entry) → entry_of H k s ≡ some e → ¬ Allows utval is_read e))
      ⊎ IsHit r
  ldst_checker_lem = rw ldst_checker-eq (result_of_lem walked refl)

  -- A register that had the entry would have let the access through.
  absent :
      (x : Entry)
      → matches utval (valid_perm is_read) x ≡ true
      → entry_of H x.handle s ≡ some x
      → IsRefused utval is_read s
      → x.handle ≢ 0
      → IsAbsent x.handle s
  absent x ok in_table refused nz i hi e =
      let small : x.handle < 2 ^ 31 = ground (arith, v.fresh x.handle, v.counter) in
      let nz' : s.handle_map i ≢ 0 = rw e nz in
      let live = v.in_use i hi nz' (omega arith) in
      let same : slot_entry s i ≡ x = ground (arith, v.held i hi live nz', in_table) in
      refused i hi live (rw same (matches-Allows utval is_read x ok))

  result_of-IsValid :
      (o : Option Entry) → walked ≡ o → IsRefused utval is_read s → IsValid H (result_of o).0
  unfolding result_of walked
  result_of-IsValid none e refused = v
  result_of-IsValid (some x) e refused =
      let (ok, in_table) =
        find_match-some utval (valid_perm is_read) (H.iter s.bounds_table) x v.distinct e in
      load_slot-IsValid H v x (rand % 16) (omega arith) in_table (absent x ok in_table refused)

  -- A valid state is valid after `dasics_ldst_checker`, if no live register had let the access
  -- through.
  pub ldst_checker-IsValid :
      IsRefused utval is_read s → IsValid H (ldst_checker H rand utval is_read s).0
  ldst_checker-IsValid refused = rw ldst_checker-eq (result_of-IsValid walked refl refused)

  result_of-counter : (o : Option Entry) → (result_of o).0.available_handle ≡ s.available_handle
  unfolding result_of load_slot
  result_of-counter none = refl
  result_of-counter (some e) = refl

  pub ldst_checker-counter :
      (ldst_checker H rand utval is_read s).0.available_handle ≡ s.available_handle
  ldst_checker-counter = rw ldst_checker-eq (result_of-counter walked)
