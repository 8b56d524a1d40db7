-- ===== src/Udasics/Register.antt =====
-- `register_udasics` and `unregister_udasics`: the invariant is set up from the first state of the
-- process, and the table is emptied at the end.
use lib_dasics.Base.{
  ℕ, zero, suc, ◌+◌, ◌^◌, ◌≤◌, ◌<◌, ◌≡◌, ◌≢◌, refl, arith, bit_and, update, ◌==◌, if◌then◌else◌,
  Bool-cases, inl, inr, ◌∙◌, none, some, List, [], ◌∷◌,
}
use lib_dasics.Word.Fields.{field-lt}
use lib_dasics.Udasics.Table.{
  Entry, HashTable, Distinct, find_handle, find_handle-add, Distinct-add, remove_handle,
}
use lib_dasics.Udasics.State.{
  Dasics, minus_one, csr_libcfg, csr_bound_lo, csr_bound_hi, cfg_v, cfg_at,
}
use lib_dasics.Udasics.Libcfg.{
  add_entry, import_bounds, register_udasics, delete_each, unregister_udasics,
}
use lib_dasics.Udasics.Slots.{slot_entry, IsLive}
use lib_dasics.Udasics.Invariant.{IsPriv, IsValid, entry_of}

-- `int dlibcfg_handle_map[DASICS_LIBCFG_WIDTH] = {-1};` fills the rest with 0.
unfoldable pub initial_map : ℕ → ℕ
initial_map i = if i == 0 then minus_one else 0

cfg_at-lt : (r i : ℕ) → cfg_at r i < 16
unfolding cfg_at
cfg_at-lt r i = field-lt 4 r i

module _ (H : HashTable) where
  -- The static variables of the file before the first call, over any registers.
  pub record IsInitial (s : Dasics H.T) : Type 0 where
    pub word : s.csr csr_libcfg < 2 ^ 64
    pub no_bounds : s.bounds_table ≡ H.empty
    pub first_handle : s.available_handle ≡ 0
    pub unmarked : (i : ℕ) → s.handle_map i ≡ initial_map i

  -- The loop before register `n`.
  record IsImported (csr : ℕ → ℕ) (n : ℕ) (s : Dasics H.T) : Type 0 where
    same_csr : s.csr ≡ csr
    word : csr csr_libcfg < 2 ^ 64
    counter : s.available_handle ≤ n
    distinct : Distinct (H.iter s.bounds_table)
    fresh : (k : ℕ) → s.available_handle ≤ k → entry_of H k s ≡ none
    priv : (k : ℕ) (e : Entry) → entry_of H k s ≡ some e → IsPriv e.priv
    marked :
        (i : ℕ)
        → i < 16
        → s.handle_map i ≢ 0
        → s.handle_map i ≢ minus_one
        → (s.handle_map i < s.available_handle) × (i < n)
    unique :
        (i j : ℕ)
        → i < 16
        → j < 16
        → s.handle_map i ≡ s.handle_map j
        → s.handle_map i ≢ 0
        → s.handle_map i ≢ minus_one
        → i ≡ j
    in_use : (i : ℕ) → i < 16 → s.handle_map i ≢ 0 → s.handle_map i ≢ minus_one → IsLive s i
    held :
        (i : ℕ)
        → i < n
        → IsLive s i
        → s.handle_map i ≢ 0
        → entry_of H (s.handle_map i) s ≡ some (slot_entry s i)

  initial-IsImported : (s : Dasics H.T) → IsInitial s → IsImported s.csr 0 s
  unfolding initial_map find_handle
  initial-IsImported s v = record {
    same_csr = refl;
    word = v.word;
    counter = omega (arith, v.first_handle);
    distinct = rw (v.no_bounds, H.iter-empty) tt;
    fresh = λ k hk. rw (v.no_bounds, H.iter-empty) refl;
    priv = λ k e found. let f : none ≡ some e = (rw (v.no_bounds, H.iter-empty) at found) in cc;
    marked = λ i hi nz nm. absurd (ground (arith, v.unmarked i));
    unique = λ i j hi hj e nz nm. absurd (ground (arith, v.unmarked i));
    in_use = λ i hi nz nm. absurd (ground (arith, v.unmarked i));
    held = λ i hi. absurd (omega arith);
  }

  -- One round at a register without V.
  skip-IsImported :
      (csr : ℕ → ℕ) (n : ℕ) (s : Dasics H.T)
      → bit_and (cfg_at (csr csr_libcfg) n) cfg_v ≡ 0
      → IsImported csr n s
      → IsImported csr (n + 1) s
  skip-IsImported csr n s dead v = record {
    same_csr = v.same_csr;
    word = v.word;
    counter = omega (arith, v.counter);
    distinct = v.distinct;
    fresh = v.fresh;
    priv = v.priv;
    marked = λ i hi nz nm. omega (arith, v.marked i hi nz nm);
    unique = v.unique;
    in_use = v.in_use;
    held = λ i hi live nz. elim (Bool-cases (i == n)) [
      | inl y ↦ absurd (ground (arith, v.same_csr))
      | inr f ↦ v.held i (ground arith) live nz
    ];
  }

  module _ (csr : ℕ → ℕ) (n : ℕ) (s : Dasics H.T) (hn : n < 16)
      (live : bit_and (cfg_at (csr csr_libcfg) n) cfg_v ≢ 0) (v : IsImported csr n s) where
    imported : Entry
    imported = record {
      handle = s.available_handle;
      priv = cfg_at (csr csr_libcfg) n;
      lo = s.csr (csr_bound_lo n);
      hi = s.csr (csr_bound_hi n);
    }

    next : Dasics H.T
    next = record (add_entry H imported s) { handle_map = update s.handle_map n imported.handle }

    next-looked :
        (k : ℕ)
        → entry_of H k next ≡ (if s.available_handle == k then some imported else entry_of H k s)
    unfolding next add_entry imported
    next-looked = find_handle-add H s.bounds_table v.distinct imported (v.fresh _ (omega arith))

    live_here : bit_and (cfg_at (s.csr csr_libcfg) n) cfg_v ≢ 0
    live_here = rw v.same_csr live

    add-IsImported : IsImported csr (n + 1) next
    unfolding next add_entry imported slot_entry
    add-IsImported = record {
      same_csr = v.same_csr;
      word = v.word;
      counter = omega (arith, v.counter);
      distinct = Distinct-add H s.bounds_table v.distinct imported (v.fresh _ (omega arith));
      fresh = λ k hk. ground (arith, next-looked k, v.fresh k, v.counter);
      priv = λ k e found.
          let q = next-looked k in
          (
            ground (arith, v.priv k e, cfg_at-lt (csr csr_libcfg) n),
            λ z. ground (arith, v.priv k e, live),
          );
      marked = λ i hi nz nm. ground (arith, v.marked i hi, v.counter);
      unique = λ i j hi hj e nz nm.
          ground (arith, v.unique i j hi hj, v.marked i hi, v.marked j hj, v.counter);
      in_use = λ i hi nz nm z. ground (arith, v.in_use i hi, live_here);
      held = λ i hi l nz. ground (
        arith,
        v.held i,
        v.fresh (s.handle_map i),
        next-looked (update s.handle_map n s.available_handle i),
        v.same_csr,
      );
    }

  import_bounds-IsImported :
      (csr : ℕ → ℕ) (left n : ℕ) (s : Dasics H.T)
      → n + left ≡ 16
      → IsImported csr n s
      → IsImported csr 16 (import_bounds H (csr csr_libcfg) left n s)
  unfolding import_bounds
  import_bounds-IsImported csr zero n s e v = let q : n ≡ 16 = omega arith in rw q at v
  import_bounds-IsImported csr (suc left) n s e v =
      elim (Bool-cases (bit_and (cfg_at (csr csr_libcfg) n) cfg_v == 0)) [
        | inl y ↦ rw y (
            import_bounds-IsImported csr left (n + 1) s (omega arith)
              (skip-IsImported csr n s (ground arith) v))
        | inr f ↦ rw f (
            import_bounds-IsImported csr left (n + 1) _ (omega arith)
              (unfold next imported in add-IsImported csr n s (omega arith) (λ z. ground arith) v))
      ]

  -- From the first state of the variables, over registers whose configuration is a 64-bit word,
  -- `register_udasics` establishes validity, whatever bounds the registers hold.
  pub register_udasics-IsValid :
      (helper maincall fault_entry funcptr : ℕ) (s : Dasics H.T)
      → IsInitial s
      → IsValid H (register_udasics H helper maincall fault_entry funcptr s)
  unfolding register_udasics slot_entry
  register_udasics-IsValid helper maincall fault_entry funcptr s v =
      let w = import_bounds-IsImported s.csr 16 0 s refl (initial-IsImported s v) in
      record {
        word = rw w.same_csr w.word;
        counter = omega (arith, w.counter);
        distinct = w.distinct;
        fresh = w.fresh;
        priv = w.priv;
        marked = λ i hi nz nm. (w.marked i hi nz nm).0;
        unique = w.unique;
        in_use = w.in_use;
        held = λ i hi live nz. ground (arith, w.held i hi live nz);
      }

  delete_each-empties :
      (es : List Entry) (t : H.T) → H.iter t ≡ es → Distinct es → H.iter (delete_each H es t) ≡ []
  unfolding delete_each remove_handle
  delete_each-empties [] t e d = e
  delete_each-empties (x ∷ es) t e d =
      delete_each-empties es (H.del x.handle t)
        (H.iter-del x.handle t (rw e d) ∙ (rw e (ground arith))) d.1

  -- In a valid state, `unregister_udasics` leaves no bound in the table and the registers as they
  -- were.
  unregister_udasics_lem :
      (s : Dasics H.T)
      → IsValid H s
      → (H.iter (unregister_udasics H s).bounds_table ≡ []) × ((unregister_udasics H s).csr ≡ s.csr)
  unfolding unregister_udasics
  unregister_udasics_lem s v =
      (delete_each-empties (H.iter s.bounds_table) s.bounds_table refl v.distinct, refl)
