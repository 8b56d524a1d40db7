-- ===== src/Tests/Blocks.antt =====
-- A library function that asks for a block and gives it back.
use lib_dasics.Base.{
  ℕ, ◌+◌, ◌^◌, ◌<◌, ◌≡◌, refl, arith, List, some, none, get_elem?, set, ◌==◌, if◌then◌else◌,
  replicate,
}
use lib_dasics.Base.Result.{ok}
use lib_dasics.Word.{add64}
use lib_dasics.Word.Align.{align8down, align8up}
use lib_dasics.Udasics.Table.{Entry, list_table}
use lib_dasics.Udasics.Libcfg.{libcfg_alloc}
use lib_dasics.Udasics.Invariant.{IsAbsent, entry_of}
use lib_dasics.Udasics.Alloc.{libcfg_alloc-IsValid}
use lib_dasics.Funcmem.{
  Bound, unused, Context, State, find_addr, handle_lib_realloc, handle_lib_free,
}
use lib_dasics.Funcmem.Laws.{IsReady, handle_lib_free_lem}
use lib_dasics.Funcmem.Realloc.{handle_lib_realloc_lem}
use lib_dasics.Tests.Samples.{program, two, two-IsValid}

abbrev context : ℕ → Context
context a0 = record { ra = 0x4000; t1 = 0; a0 = a0; a1 = 0; sp = 0x100000 }

abbrev cells : List Bound
cells = replicate 16 unused

abbrev empty_state : State list_table
empty_state = record {
  context = context 0x20;
  mem = record { func = 7; bound_num = 0; bound_max = 16; mem = cells };
  dasics = two;
}

two_room : two.available_handle + 1 < 2 ^ 31
unfolding program
two_room = omega arith

abbrev block : Bound
block = record { addr = 0x30000; length = 0x20; handler = 2 }

abbrev full_state : State list_table
full_state = record {
  context = context 0x30000;
  mem = record { func = 7; bound_num = 1; bound_max = 16; mem = set cells 0 block };
  dasics = (libcfg_alloc list_table 5 3 0x30000 0x30020 two).0;
}

full-IsReady : IsReady list_table full_state
unfolding program
full-IsReady = record {
  cells = record { cells = refl; counted = refl };
  bounds = libcfg_alloc-IsValid list_table 5 3 0x30000 0x30020 two two-IsValid two_room;
}

abbrev block_entry : Entry
block_entry = record { handle = 2; priv = 11; lo = 0x30000; hi = 0x30020 }

has_block : entry_of list_table 2 full_state.dasics ≡ some block_entry
unfolding program
has_block = refl

block_found : find_addr 0x30000 full_state.mem.mem ≡ some 0
unfolding program
block_found = refl

free_found : find_addr 0 cells ≡ some 0
unfolding program
free_found = refl

handle_lib_free_lem_example :
    (t : State list_table) × (handle_lib_free list_table full_state ≡ ok t)
    × IsReady list_table t
    × (t.mem.bound_num + 1 ≡ 1)
    × ((k : ℕ)
        → entry_of list_table k t.dasics
          ≡ (if 2 == k then none else entry_of list_table k full_state.dasics))
    × IsAbsent 2 t.dasics
handle_lib_free_lem_example =
    handle_lib_free_lem list_table full_state 0 block block_found refl block_entry full-IsReady
      (omega arith) (omega arith) has_block (omega arith)

abbrev null_state : State list_table
null_state = record empty_state { context = context 0 }

abbrev again : State list_table
again = record full_state { context = record (context 0x30000) { a1 = 0x80 } }

again-IsReady : IsReady list_table again
again-IsReady = record { cells = full-IsReady.cells; bounds = full-IsReady.bounds }

again_room : again.dasics.available_handle + 1 < 2 ^ 31
unfolding program
again_room = omega arith

handle_lib_realloc_lem_example :
    (t : State list_table) × (handle_lib_realloc list_table 3 0x40000 again ≡ ok t)
    × IsReady list_table t
    × (t.context ≡ record again.context { a0 = 0x40000 })
    × (get_elem? t.mem.mem 0
        ≡ some (record { addr = 0x40000; length = 0x80; handler = again.dasics.available_handle }))
    × (entry_of list_table 2 t.dasics ≡ none)
    × (entry_of list_table again.dasics.available_handle t.dasics
        ≡ some (record {
          handle = again.dasics.available_handle;
          priv = 11;
          lo = align8down 0x40000;
          hi = align8up (add64 0x40000 0x80);
        }))
handle_lib_realloc_lem_example =
    handle_lib_realloc_lem list_table 3 0x40000 again 0 block block_found refl (omega arith)
      block_entry again-IsReady (omega arith) (omega arith) has_block again_room
