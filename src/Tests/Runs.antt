-- ===== src/Tests/Runs.antt =====
-- A sequence of calls on the library bounds, and the search for coverage and for the oldest register.
use lib_dasics.Base.{
  update, bit_and, ℕ, leb, all_below, all_below_sound, ◌<◌, ◌≡◌, ◌≢◌, refl, arith, List, [], ◌∷◌,
  some, true, ◌==◌,
}
use lib_dasics.Udasics.Table.{Entry, list_table}
use lib_dasics.Udasics.State.{Dasics, minus_one, cfg_at, cfg_v}
use lib_dasics.Udasics.Libcfg.{libcfg_get}
use lib_dasics.Udasics.Slots.{slot_entry, IsLive}
use lib_dasics.Udasics.Invariant.{IsValid, entry_of}
use lib_dasics.Udasics.Fault.{Allows, IsRefused}
use lib_dasics.Udasics.Spec.{Call, alloc, free, get, access, MeetsAll}
use lib_dasics.Udasics.Runs.{
  view, run, Runs, done, then_run, Runs-MeetsAll, Runs-guarded, Runs-granted,
}
use lib_dasics.Tests.Samples.{
  program, one, one-IsValid, one_room, two, two-IsValid, second, two_has_second,
}

-- Nothing in force covers 0x9000.
two-IsRefused : IsRefused 0x9000 true two
unfolding program all_below
two-IsRefused i hi live (lo, below, perm) =
    ground (arith, all_below_sound (λ j. leb (slot_entry two j).hi 0x9000) {bound = 16} refl i hi)

-- A second bound is made, read, found not to allow 0x9000, and freed.
abbrev calls : List (Call × ℕ)
calls = (alloc 2 0x5000 0x5008, 1) ∷ (get 1, 10) ∷ (access 0x9000 true, 0) ∷ (free 1, 0) ∷ []

abbrev freed : Dasics (List Entry)
freed = (run list_table 5 (free 1) two).0

runs : Runs list_table one calls freed
unfolding program run libcfg_get
runs = then_run 5 (alloc 2 0x5000 0x5008) one_room (
    then_run 5 (get 1) tt
      (then_run 5 (access 0x9000 true) two-IsRefused (then_run 5 (free 1) (λ e. omega arith) done)))

Runs-MeetsAll_example :
    MeetsAll (view list_table one) calls (view list_table freed) × IsValid list_table freed
Runs-MeetsAll_example = Runs-MeetsAll list_table one-IsValid runs

abbrev only_alloc : List (Call × ℕ)
only_alloc = (alloc 2 0x5000 0x5008, 1) ∷ []

Runs-alloc : Runs list_table one only_alloc two
unfolding program run
Runs-alloc = then_run 5 (alloc 2 0x5000 0x5008) one_room done

two_one-IsLive : IsLive two 1
unfolding program
two_one-IsLive e = omega arith

two_one_mark : two.handle_map 1 ≢ 0
unfolding program
two_one_mark e = omega arith

two_one-Allows : Allows 0x5004 true (slot_entry two 1)
unfolding program
two_one-Allows = (omega arith, omega arith, refl)

Runs-guarded_example :
    (e : Entry) × (entry_of list_table (two.handle_map 1) two ≡ some e) × Allows 0x5004 true e
Runs-guarded_example =
    Runs-guarded list_table one-IsValid Runs-alloc 1 0x5004 true (omega arith) two_one-IsLive
      two_one_mark two_one-Allows

-- Both bounds stand in the table alone: every register is out of force.
abbrev swapped_out : Dasics (List Entry)
swapped_out = record two { csr = update two.csr 0x880 0; handle_map = λ i. minus_one }

nothing-IsLive : (i : ℕ) → i < 16 → ¬ IsLive swapped_out i
unfolding program all_below
nothing-IsLive i hi live =
    ground
      (arith, live, all_below_sound (λ j. bit_and (cfg_at 0 j) cfg_v == 0) {bound = 16} refl i hi)

swapped_out-IsValid : IsValid list_table swapped_out
swapped_out-IsValid = record {
  word = omega arith;
  counter = two-IsValid.counter;
  distinct = two-IsValid.distinct;
  fresh = two-IsValid.fresh;
  priv = two-IsValid.priv;
  marked = λ i hi nz unused. absurd (unused refl);
  unique = λ i j hi hj same nz unused. absurd (unused refl);
  in_use = λ i hi nz unused. absurd (unused refl);
  held = λ i hi live. absurd (nothing-IsLive i hi live);
}

Runs-granted_example :
    let r = run list_table 5 (access 0x5004 true) swapped_out in
    (r.1 ≡ 1)
    × ((i : ℕ) × (i < 16) × IsLive r.0 i × Allows 0x5004 true (slot_entry r.0 i))
    × ((j : ℕ) → entry_of list_table j r.0 ≡ entry_of list_table j swapped_out)
Runs-granted_example =
    Runs-granted list_table swapped_out-IsValid done 5 0x5004 true 1 second
      (λ i hi live. absurd (nothing-IsLive i hi live)) two_has_second
      (omega arith, omega arith, refl)
