-- ===== src/Funcmem/Laws.antt =====
-- What `handle_lib_malloc` and `handle_lib_free` do to the cells and to the bounds.
use lib_dasics.Base.{
  ℕ, ◌+◌, ◌^◌, ◌<◌, ◌≡◌, ◌≢◌, refl, arith, ◌∙◌, ◌==◌, if◌then◌else◌, none, some, get_elem?, set,
  length-set,
}
use lib_dasics.Base.Result.{ok, err, Stop}
use lib_dasics.Word.{sub64}
use lib_dasics.Udasics.Table.{HashTable, Entry}
use lib_dasics.Udasics.State.{minus_one}
use lib_dasics.Udasics.Libcfg.{libcfg_free}
use lib_dasics.Udasics.Invariant.{IsValid, IsAbsent, entry_of}
use lib_dasics.Udasics.Free.{libcfg_free-IsValid, libcfg_free_lem}
use lib_dasics.Funcmem.{
  Bound, unused, FuncMem, with_room, is_found, find_addr, target, State, handle_lib_free,
}
use lib_dasics.Funcmem.Cells.{
  used-zero, used-pos, IsFuncMem, find_addr-some, count_used-set, count_used-le-length,
}

module _ (H : HashTable) where
  -- What `handle_lib_malloc` starts from: the counts are right and so are the bounds.
  pub record IsReady (s : State H) : Type 0 where
    pub cells : IsFuncMem s.mem
    pub bounds : IsValid H s.dasics

  module _ (rand block : ℕ) (s : State H) (v : IsReady s) (answered : block ≢ 0)
      (room : s.dasics.available_handle + 1 < 2 ^ 31) (small : s.mem.bound_max + 16 < 2 ^ 64) where
    grown : FuncMem
    grown = with_room s.mem

  module _ (s : State H) (i : ℕ) (b : Bound) (found : find_addr s.context.a0 s.mem.mem ≡ some i)
      (got : get_elem? s.mem.mem i ≡ some b) where
    -- The state that `handle_lib_free` leaves.
    freed : State H
    freed = record {
      context = record s.context { a0 = 0 };
      mem = record s.mem {
        mem = set s.mem.mem i (record { addr = 0; length = 0; handler = minus_one });
        bound_num = sub64 s.mem.bound_num 1;
      };
      dasics = (libcfg_free H b.handler s.dasics).0;
    }

    handle_lib_free-eq : handle_lib_free H s ≡ ok freed
    unfolding handle_lib_free target freed is_found
    handle_lib_free-eq = rw (found, is_found, target, got) refl

    -- Where the counts of the cells are right and fit 64 bits and the bounds are valid, to free a
    -- block that is recorded with a handle in use other than 0 succeeds: the count of blocks is
    -- one less and stays right, the bounds stay valid, the table loses the entry of the handle
    -- and no other, and no register is marked with it.
    pub handle_lib_free_lem :
        (e : Entry)
        → IsReady s
        → s.context.a0 ≢ 0
        → b.handler ≢ 0
        → entry_of H b.handler s.dasics ≡ some e
        → s.mem.bound_max < 2 ^ 64
        → (t : State H) × (handle_lib_free H s ≡ ok t)
          × IsReady t
          × (t.mem.bound_num + 1 ≡ s.mem.bound_num)
          × ((k : ℕ)
              → entry_of H k t.dasics ≡ (if b.handler == k then none else entry_of H k s.dasics))
          × IsAbsent b.handler t.dasics
    unfolding freed
    handle_lib_free_lem e v nz hnz has small =
        let (c, got_c, here, in_range) = find_addr-some s.context.a0 s.mem.mem i found in
        let now_free : Bound = record { addr = 0; length = 0; handler = minus_one } in
        let is_b : b.addr ≡ s.context.a0 = ground (arith, got, got_c, here) in
        let total = count_used-set s.mem.mem i b now_free got in
        let one_less : sub64 s.mem.bound_num 1 + 1 ≡ s.mem.bound_num = omega (
          arith,
          used-pos b (rw is_b nz),
          used-zero now_free refl,
          total,
          v.cells.counted,
          v.cells.cells,
          count_used-le-length s.mem.mem,
        ) in
        let (r0, table, absent, slots, dead) =
          libcfg_free_lem H b.handler s.dasics e v.bounds hnz has in
        (
          freed,
          handle_lib_free-eq,
          record {
            cells = record {
              cells = length-set s.mem.mem i now_free ∙ v.cells.cells;
              counted = omega (
                arith,
                used-pos b (rw is_b nz),
                used-zero now_free refl,
                total,
                v.cells.counted,
                one_less,
              );
            };
            bounds = libcfg_free-IsValid H b.handler s.dasics e v.bounds hnz has;
          },
          one_less,
          table,
          absent,
        )

  -- To free an address that no cell records, as one that was freed before, stops the process.
  handle_lib_free-unknown :
      (s : State H)
      → find_addr s.context.a0 s.mem.mem ≡ none
      → handle_lib_free H s ≡ err Stop.assertion_failed
  unfolding handle_lib_free is_found
  handle_lib_free-unknown s e = rw e refl

  -- `free(NULL)`, where the first free cell was never used, takes that cell for a block: it
  -- succeeds, subtracts one from the count of blocks, wrapping as 64-bit numbers do, and frees
  -- handle 0.
  handle_lib_free-null :
      (s : State H) (i : ℕ)
      → s.context.a0 ≡ 0
      → find_addr 0 s.mem.mem ≡ some i
      → get_elem? s.mem.mem i ≡ some unused
      → (t : State H) × (handle_lib_free H s ≡ ok t)
        × (t.mem.bound_num ≡ sub64 s.mem.bound_num 1)
        × (t.dasics ≡ (libcfg_free H 0 s.dasics).0)
  unfolding freed
  handle_lib_free-null s i zero_a0 found got =
      let found' : find_addr s.context.a0 s.mem.mem ≡ some i = rw zero_a0 found in
      (freed s i unused found' got, handle_lib_free-eq s i unused found' got, refl, refl)
