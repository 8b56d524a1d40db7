-- ===== src/Funcmem/Realloc.antt =====
-- What `handle_lib_realloc` does to the cells and to the bounds.
use lib_dasics.Base.{
  ℕ, ◌+◌, ◌^◌, ◌<◌, ◌≡◌, ◌≢◌, refl, arith, ◌∙◌, none, some, get_elem?, set, length-set,
  get_elem?-set_self,
}
use lib_dasics.Base.Result.{ok}
use lib_dasics.Word.{add64}
use lib_dasics.Word.Align.{align8down, align8up}
use lib_dasics.Udasics.Table.{HashTable, Entry}
use lib_dasics.Udasics.State.{Dasics}
use lib_dasics.Udasics.Libcfg.{libcfg_alloc, libcfg_free, new_entry}
use lib_dasics.Udasics.Invariant.{entry_of}
use lib_dasics.Udasics.Alloc.{libcfg_alloc-IsValid, entry_of-libcfg_alloc}
use lib_dasics.Udasics.Free.{libcfg_free-IsValid, libcfg_free_lem, libcfg_free-counter}
use lib_dasics.Funcmem.{Bound, State, find_addr, target, handle_lib_realloc}
use lib_dasics.Funcmem.Cells.{used-pos, not-zero, find_addr-some, count_used-set}
use lib_dasics.Funcmem.Laws.{IsReady}

module _ (H : HashTable) (rand block : ℕ) (s : State H) (i : ℕ) (b : Bound)
    (found : find_addr s.context.a0 s.mem.mem ≡ some i) (got : get_elem? s.mem.mem i ≡ some b)
    (answered : block ≢ 0) where
  freed : Dasics H.T
  freed = (libcfg_free H b.handler s.dasics).0

  taken : Dasics H.T × ℕ
  taken = libcfg_alloc H rand 3 block (add64 block s.context.a1) freed

  cell : Bound
  cell = record { addr = block; length = s.context.a1; handler = taken.1 }

  after : State H
  after = record {
    context = record s.context { a0 = block };
    mem = record s.mem { mem = set s.mem.mem i cell };
    dasics = taken.0;
  }

  handle_lib_realloc-eq : handle_lib_realloc H rand block s ≡ ok after
  unfolding handle_lib_realloc target after cell taken freed
  handle_lib_realloc-eq = rw (not-zero block answered, found, target, got) refl

  -- Where the counts of the cells are right, the bounds valid and the handle counter not at its
  -- last value, `realloc` of a block that is recorded with a handle in use other than 0, to which
  -- the system gives a block, succeeds: its cell records the new block and length with the next
  -- handle, the counts stay right and the bounds valid, `a0` is the new block, the old handle has
  -- no bound any more, and the new one has the new block, rounded out to multiples of 8, to read
  -- and write.
  pub handle_lib_realloc_lem :
      (e : Entry)
      → IsReady H s
      → s.context.a0 ≢ 0
      → b.handler ≢ 0
      → entry_of H b.handler s.dasics ≡ some e
      → s.dasics.available_handle + 1 < 2 ^ 31
      → (t : State H) × (handle_lib_realloc H rand block s ≡ ok t)
        × IsReady H t
        × (t.context ≡ record s.context { a0 = block })
        × (get_elem? t.mem.mem i
            ≡ some (record {
              addr = block;
              length = s.context.a1;
              handler = s.dasics.available_handle;
            }))
        × (entry_of H b.handler t.dasics ≡ none)
        × (entry_of H s.dasics.available_handle t.dasics
            ≡ some (record {
              handle = s.dasics.available_handle;
              priv = 11;
              lo = align8down block;
              hi = align8up (add64 block s.context.a1);
            }))
  unfolding after cell taken freed new_entry
  handle_lib_realloc_lem e v nz hnz has room =
      let (c, got_c, here, in_range) = find_addr-some s.context.a0 s.mem.mem i found in
      let is_b : b.addr ≡ s.context.a0 = ground (arith, got, got_c, here) in
      let (r0, table, absent, slots, dead) =
        libcfg_free_lem H b.handler s.dasics e v.bounds hnz has in
      let freed_valid = libcfg_free-IsValid H b.handler s.dasics e v.bounds hnz has in
      let counter = libcfg_free-counter H b.handler s.dasics in
      let small : freed.available_handle + 1 < 2 ^ 31 = omega (arith, counter, room) in
      let (same_handle, table') =
        entry_of-libcfg_alloc H rand 3 block (add64 block s.context.a1) freed freed_valid small in
      let old_below : b.handler < s.dasics.available_handle =
        ground (arith, v.bounds.fresh b.handler, has) in
      (
        after,
        handle_lib_realloc-eq,
        record {
          cells = record {
            cells = length-set s.mem.mem i cell ∙ v.cells.cells;
            counted = omega (
              arith,
              v.cells.counted,
              count_used-set s.mem.mem i b cell got,
              used-pos b (rw is_b nz),
              used-pos cell answered,
            );
          };
          bounds =
              libcfg_alloc-IsValid H rand 3 block (add64 block s.context.a1) freed freed_valid
                small;
        },
        refl,
        get_elem?-set_self s.mem.mem i cell in_range ∙ ground (arith, same_handle, counter),
        ground (arith, table' b.handler, table b.handler, same_handle, counter, old_below),
        ground (arith, table' s.dasics.available_handle, same_handle, counter),
      )
