-- ===== src/Tests/Bounds.antt =====
-- The library bounds: a process that makes two bounds, is refused an access and frees a bound.
use lib_dasics.Base.{ℕ, ◌<◌, ◌≡◌, ◌≢◌, ◌⊎◌, refl, arith, some, none, ◌==◌, if◌then◌else◌, false}
use lib_dasics.Udasics.Table.{Entry, list_table}
use lib_dasics.Udasics.State.{minus_one}
use lib_dasics.Udasics.Libcfg.{
  libcfg_free_all, libcfg_alloc, libcfg_free, new_entry, ldst_checker, register_udasics,
}
use lib_dasics.Udasics.Slots.{slot_entry, IsLive}
use lib_dasics.Udasics.Invariant.{IsValid, IsAbsent, entry_of}
use lib_dasics.Udasics.Register.{register_udasics-IsValid}
use lib_dasics.Udasics.Alloc.{libcfg_alloc-slots}
use lib_dasics.Udasics.Free.{libcfg_free_lem}
use lib_dasics.Udasics.FreeAll.{libcfg_free_all_lem}
use lib_dasics.Udasics.Fault.{Allows, IsHit, ldst_checker_lem}
use lib_dasics.Tests.Samples.{
  program, first, first-IsInitial, one, one-IsValid, one_room, two, two-IsValid, second,
  two_has_second,
}

register_udasics-IsValid_example :
    IsValid list_table (register_udasics list_table 0x1000 0x2000 0x3000 0 first)
register_udasics-IsValid_example =
    register_udasics-IsValid list_table 0x1000 0x2000 0x3000 0 first first-IsInitial

-- The run itself: the second bound has handle 1 and stands in register 1.
two_slots :
    (slot_entry two 1 ≡ second)
    × (entry_of list_table 0 two
        ≡ some (record { handle = 0; priv = 11; lo = 0x1000; hi = 0x2008 }))
unfolding program
two_slots = (refl, refl)

libcfg_free_lem_example :
    let r = libcfg_free list_table 1 two in
    (r.1 ≡ 0)
    × ((k : ℕ) → entry_of list_table k r.0 ≡ (if 1 == k then none else entry_of list_table k two))
    × IsAbsent 1 r.0
    × ((i : ℕ) → i < 16 → two.handle_map i ≢ 1 → slot_entry r.0 i ≡ slot_entry two i)
    × ((i : ℕ) → i < 16 → two.handle_map i ≡ 1 → ¬ IsLive r.0 i × (r.0.handle_map i ≡ minus_one))
libcfg_free_lem_example =
    libcfg_free_lem list_table 1 two second two-IsValid (omega arith) two_has_second

libcfg_alloc-slots_example :
    let s' = (libcfg_alloc list_table 5 2 0x5000 0x5008 one).0 in
    (i : ℕ) × (i < 16)
    × IsLive s' i
    × (slot_entry s' i ≡ new_entry list_table 2 0x5000 0x5008 one)
    × ((j : ℕ) → j < 16 → j ≢ i → slot_entry s' j ≡ slot_entry one j)
    × (IsLive one i → (j : ℕ) → j < 16 → IsLive one j)
libcfg_alloc-slots_example =
    libcfg_alloc-slots list_table 5 2 0x5000 0x5008 one one-IsValid one_room

ldst_checker_lem_example :
    let r = ldst_checker list_table 9 0x1500 false two in
    ((r ≡ (two, minus_one))
      × ((k : ℕ) (e : Entry) → entry_of list_table k two ≡ some e → ¬ Allows 0x1500 false e))
    ⊎ IsHit list_table 9 0x1500 false two two-IsValid r
ldst_checker_lem_example = ldst_checker_lem list_table 9 0x1500 false two two-IsValid

-- The write to 0x1500 is found to be allowed, and the bound goes to register 9.
found_in_nine : (ldst_checker list_table 9 0x1500 false two).1 ≡ 9
unfolding program
found_in_nine = refl

libcfg_free_all_lem_example :
    let r = libcfg_free_all list_table two in
    (r.1 ≡ 0) × IsValid list_table r.0 × ((i : ℕ) → i < 16 → two.handle_map i ≢ 0 → ¬ IsLive r.0 i)
libcfg_free_all_lem_example = libcfg_free_all_lem list_table two two-IsValid
