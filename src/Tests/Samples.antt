-- ===== src/Tests/Samples.antt =====
-- States that the tests share: the bounds of a process that starts with no bounds, then makes two.
use lib_dasics.Base.{◌+◌, ◌^◌, ◌<◌, ◌≡◌, refl, arith, List, [], some}
use lib_dasics.Word.Fields.{field, put_field, mask_field}
use lib_dasics.Word.Align.{align8down, align8up}
use lib_dasics.Udasics.Table.{Entry, find_handle, remove_handle, list_table}
use lib_dasics.Udasics.State.{Dasics, cfg_at, libbound_write, load_slot}
use lib_dasics.Udasics.Libcfg.{
  first_free, alloc_victim, matches, find_match, new_entry, add_entry, libcfg_alloc, release,
  libcfg_free, import_bounds, register_udasics, ldst_checker,
}
use lib_dasics.Funcmem.{find_addr}
use lib_dasics.Funcmem.Cells.{count_used, used}
use lib_dasics.Udasics.Slots.{slot_entry}
use lib_dasics.Udasics.Invariant.{IsValid, entry_of}
use lib_dasics.Udasics.Register.{initial_map, IsInitial, register_udasics-IsValid}
use lib_dasics.Udasics.Alloc.{libcfg_alloc-IsValid}

-- Everything that a run of the model opens.
unfoldable pub program : Unit {0}
unfolding find_handle remove_handle field put_field mask_field align8down align8up cfg_at
    libbound_write load_slot first_free alloc_victim matches find_match new_entry add_entry
    libcfg_alloc release libcfg_free import_bounds register_udasics ldst_checker initial_map
    slot_entry find_addr count_used used
program = tt

abbrev pub first : Dasics (List Entry)
first = record {
  csr = λ n. 0;
  bounds_table = [];
  available_handle = 0;
  handle_map = initial_map;
  umaincall_helper = 0;
}

abbrev start : Dasics (List Entry)
start = register_udasics list_table 0x1000 0x2000 0x3000 0 first

pub first-IsInitial : IsInitial list_table first
first-IsInitial = record {
  word = omega arith;
  no_bounds = refl;
  first_handle = refl;
  unmarked = λ i. refl;
}

start-IsValid : IsValid list_table start
start-IsValid = register_udasics-IsValid list_table 0x1000 0x2000 0x3000 0 first first-IsInitial

abbrev pub one : Dasics (List Entry)
one = (libcfg_alloc list_table 5 3 0x1003 0x2001 start).0

abbrev pub two : Dasics (List Entry)
two = (libcfg_alloc list_table 5 2 0x5000 0x5008 one).0

start_room : start.available_handle + 1 < 2 ^ 31
unfolding program
start_room = omega arith

pub one_room : one.available_handle + 1 < 2 ^ 31
unfolding program
one_room = omega arith

pub one-IsValid : IsValid list_table one
one-IsValid = libcfg_alloc-IsValid list_table 5 3 0x1003 0x2001 start start-IsValid start_room

pub two-IsValid : IsValid list_table two
two-IsValid = libcfg_alloc-IsValid list_table 5 2 0x5000 0x5008 one one-IsValid one_room

abbrev pub second : Entry
second = record { handle = 1; priv = 10; lo = 0x5000; hi = 0x5008 }

pub two_has_second : entry_of list_table 1 two ≡ some second
unfolding program
two_has_second = refl
