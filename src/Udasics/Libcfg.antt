-- ===== src/Udasics/Libcfg.antt =====
-- The library-bound operations of src/udasics/udasics.c: `register_udasics`,
-- `unregister_udasics`, `dasics_libcfg_alloc`, `_free`, `_free_all`, `_get` and
-- `dasics_ldst_checker`. `malloc` gives an entry; the result of `rand()` is an argument.
use lib_dasics.Base.{
  ℕ, zero, suc, ◌+◌, ◌%◌, ◌^◌, Bool, ◌&&◌, Option, none, some, List, [], ◌∷◌, bit_and, bit_or,
  update, ltb, leb, ◌==◌, if◌then◌else◌, not,
}
use lib_dasics.Word.Align.{align8down, align8up}
use lib_dasics.Word.Fields.{mask_field}
use lib_dasics.Udasics.Table.{Entry, HashTable}
use lib_dasics.Udasics.State.{
  Dasics, minus_one, is_negative, csr_libcfg, csr_bound_lo, csr_bound_hi, libcfg_width, cfg_v,
  cfg_r, cfg_w, cfg_at, load_slot,
}

-- The first register from `idx` on that is not valid, of the `left` ones that are left; else the
-- number past the last.
unfoldable pub first_free : ℕ → ℕ → ℕ → ℕ
first_free zero idx libcfg = idx
first_free (suc left) idx libcfg =
    let rest = first_free left (idx + 1) libcfg in
    if bit_and (cfg_at libcfg idx) cfg_v == 0 then idx else rest

-- The register that `dasics_libcfg_alloc` takes: a free one, or any when all are in use.
unfoldable pub alloc_victim : ℕ → ℕ → ℕ
alloc_victim rand libcfg =
    let victim = first_free libcfg_width 0 libcfg in
    if victim == libcfg_width then rand % libcfg_width else victim

-- `bound.lo <= utval && utval < bound.hi && (priv & valid_perm) == valid_perm`
unfoldable pub matches : ℕ → ℕ → Entry → Bool
matches utval perm e = leb e.lo utval && (ltb utval e.hi && (bit_and e.priv perm == perm))

-- The walk of `dasics_ldst_checker`.
unfoldable pub find_match : ℕ → ℕ → List Entry → Option Entry
find_match utval perm [] = none
find_match utval perm (e ∷ es) = if matches utval perm e then some e else find_match utval perm es

abbrev pub valid_perm : Bool → ℕ
valid_perm is_read = bit_or cfg_v (if is_read then cfg_r else cfg_w)

module _ (H : HashTable) where
  open H use {T, empty, add, find, del, iter}

  -- `dasics_libcfg_get`
  unfoldable pub libcfg_get : ℕ → Dasics T → ℕ
  libcfg_get handle s = elim (find handle s.bounds_table) [ none ↦ 0 | some e ↦ e.priv ]

  -- The entry that `dasics_libcfg_alloc` makes.
  unfoldable pub new_entry : ℕ → ℕ → ℕ → Dasics T → Entry
  new_entry cfg lo hi s = record {
    handle = s.available_handle;
    priv = bit_or (bit_and cfg 0xf) cfg_v;
    lo = align8down lo;
    hi = align8up hi;
  }

  -- `HASH_ADD_INT` of it, with `available_handle++`, which wraps as an `int` does.
  unfoldable pub add_entry : Entry → Dasics T → Dasics T
  add_entry e s = record s {
    bounds_table = add e s.bounds_table;
    available_handle = (s.available_handle + 1) % 2 ^ 32;
  }

  -- `dasics_libcfg_alloc`
  unfoldable pub libcfg_alloc : ℕ → ℕ → ℕ → ℕ → Dasics T → Dasics T × ℕ
  libcfg_alloc rand cfg lo hi s =
      let libcfg = s.csr csr_libcfg in
      let e = new_entry cfg lo hi s in
      (load_slot libcfg e (alloc_victim rand libcfg) (add_entry e s), e.handle)

  -- The loop of `dasics_libcfg_free` over the registers.
  unfoldable pub release : ℕ → ℕ → ℕ → Dasics T → Dasics T
  release handle zero idx s = s
  release handle (suc left) idx s =
      let rest = release handle left (idx + 1) s in
      if s.handle_map idx == handle
      then record s {
        csr = update s.csr csr_libcfg (mask_field 4 (s.csr csr_libcfg) idx cfg_v);
        handle_map = update s.handle_map idx minus_one;
      }
      else rest

  -- `dasics_libcfg_free`
  unfoldable pub libcfg_free : ℕ → Dasics T → Dasics T × ℕ
  libcfg_free handle s =
      if is_negative handle then (s, minus_one) else elim (find handle s.bounds_table) [
        | none ↦ (s, minus_one)
        | some e ↦ (
          release handle libcfg_width 0 (record s { bounds_table = del handle s.bounds_table }),
          0,
        )
      ]

  -- `dasics_libcfg_free_all`, whose loop has `left` registers left.
  unfoldable pub free_from : ℕ → ℕ → Dasics T → Dasics T
  free_from zero idx s = s
  free_from (suc left) idx s =
      free_from left (idx + 1)
        (if s.handle_map idx == minus_one then s else (libcfg_free (s.handle_map idx) s).0)

  unfoldable pub libcfg_free_all : Dasics T → Dasics T × ℕ
  libcfg_free_all s = (free_from libcfg_width 0 s, 0)

  -- `dasics_ldst_checker`
  unfoldable pub ldst_checker : ℕ → ℕ → Bool → Dasics T → Dasics T × ℕ
  ldst_checker rand utval is_read s =
      elim (find_match utval (valid_perm is_read) (iter s.bounds_table)) [
        | none ↦ (s, minus_one)
        | some e ↦
            let victim = rand % libcfg_width in (load_slot (s.csr csr_libcfg) e victim s, victim)
      ]

  -- The loop of `register_udasics`, with `left` registers left.
  unfoldable pub import_bounds : ℕ → ℕ → ℕ → Dasics T → Dasics T
  import_bounds libcfg zero idx s = s
  import_bounds libcfg (suc left) idx s =
      let curr_cfg = cfg_at libcfg idx in
      let e : Entry = record {
        handle = s.available_handle;
        priv = curr_cfg;
        lo = s.csr (csr_bound_lo idx);
        hi = s.csr (csr_bound_hi idx);
      } in
      import_bounds libcfg left (idx + 1) (
        if bit_and curr_cfg cfg_v == 0
        then s
        else record (add_entry e s) { handle_map = update s.handle_map idx e.handle })

  -- `register_udasics`: the addresses of the three entry points are arguments.
  unfoldable pub register_udasics : ℕ → ℕ → ℕ → ℕ → Dasics T → Dasics T
  register_udasics helper maincall fault_entry funcptr s =
      let s' = import_bounds (s.csr csr_libcfg) libcfg_width 0 s in
      record s' {
        umaincall_helper = if not (funcptr == 0) then funcptr else helper;
        csr = update (update s'.csr 0x8b0 maincall) 0x005 fault_entry;
      }

  -- `unregister_udasics`: the walk deletes each entry that it meets.
  unfoldable pub delete_each : List Entry → T → T
  delete_each [] t = t
  delete_each (e ∷ es) t = delete_each es (del e.handle t)

  unfoldable pub unregister_udasics : Dasics T → Dasics T
  unregister_udasics s = record s {
    bounds_table = delete_each (iter s.bounds_table) s.bounds_table;
  }
