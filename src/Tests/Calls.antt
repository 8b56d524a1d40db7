-- ===== src/Tests/Calls.antt =====
-- The program calls a library and returns.
use lib_dasics.Base.{
  inl, ◌∙◌, [], ◌∷◌, ℕ, ◌+◌, ◌^◌, ◌<◌, ◌≤◌, ◌≡◌, ◌≢◌, ◌⊎◌, inr, refl, arith, some, none, update,
  ◌==◌, ltb, leb, if◌then◌else◌, true, false, not, ◌&&◌,
}
use lib_dasics.Base.Result.{ok}
use lib_dasics.Udasics.Table.{list_table}
use lib_dasics.Udasics.Invariant.{IsValid, entry_of, write_csr-IsValid}
use lib_dasics.Jumpcfg.{jumpcfg_alloc, first_idle}
use lib_dasics.Jumpcfg.Laws.{IsOpen, region}
use lib_dasics.Funcmem.{Bound, Context, init_func_mem}
use lib_dasics.Elf.{Elf, is_main}
use lib_dasics.Cross.{
  Cross, Process, sizeof_cross, cross_call, pop_cross, dynamic_call, dynamic_return,
}
use lib_dasics.Cross.Laws.{IsCall, cells_of, pop_cross-blocks}
use lib_dasics.Cross.Blocks.{owns, owns-nil, recorded, AreOwned}
use lib_dasics.Cross.Call.{call_entry, cross_call_lem}
use lib_dasics.Cross.Dynamic.{IsSent, IsReturned, dynamic_return-dynamic_call}
use lib_dasics.Cross.RoundTrip.{IsCallable, pop_cross-region_zero}
use lib_dasics.Tests.Samples.{program, two, two-IsValid, second, two_has_second}
use lib_dasics.Tests.Machine.{modules, module_at}

abbrev pub nowhere : Cross
nowhere = record {
  begin = 0;
  target = 0;
  func = none;
  ra = 0;
  handle_num = 0;
  jmpcfg = λ i. 0;
  handle = λ i. 0;
}

abbrev process : ℕ → Process list_table
process jump = record {
  context = record { ra = 0x4000; t1 = 0; a0 = 0; a1 = 0; sp = 0x100000 };
  dasics = record two { csr = update two.csr 0x8c8 jump };
  elfs = modules;
  mems = init_func_mem;
  stack = record { base = 0x40000; top = 0x40000 + 753664; cells = λ n. nowhere };
}

untrusted_two : is_main (modules 2) ≡ false
unfolding is_main
untrusted_two = refl

two_room3 : two.available_handle + 3 < 2 ^ 31
unfolding program
two_room3 = omega arith

two_handles : two.available_handle ≢ 0
unfolding program
two_handles = λ e. omega arith

process-IsCallable : (jump : ℕ) → IsCallable list_table 1 2 (process jump)
process-IsCallable jump = record {
  another = omega arith;
  untrusted = untrusted_two;
  no_memory = refl;
  bounds = write_csr-IsValid list_table two-IsValid 0x8c8 jump (omega arith) (inr (omega arith));
  counter = two_room3;
  room = (omega arith, omega arith, omega arith);
}

process-IsOpen : IsOpen (process 1).dasics.csr 0
unfolding program region
process-IsOpen e = omega arith

one_idle : ¬ IsOpen (process 1).dasics.csr 1
unfolding program region
one_idle o = o refl

zero_idle : ¬ IsOpen (process 0).dasics.csr 0
unfolding program region
zero_idle o = o refl

-- The first module, all of whose functions are redirected, calls a trusted library, whose untrusted
-- copy is the second module.
abbrev with_copy : ℕ → Elf
with_copy p =
    if p == 1
    then record (module_at 0 1) { redirect_switch = λ i. 1 }
    else if p == 3
    then record (module_at 0x10000 1) { copy_lib_elf = some 2 }
    else module_at 0x20000 2

abbrev redirected : Process list_table
redirected = record (process 1) { elfs = with_copy }

untrusted_copy : is_main (with_copy 2) ≡ false
unfolding is_main
untrusted_copy = refl

redirected-IsCallable : IsCallable list_table 1 2 redirected
redirected-IsCallable = record {
  another = omega arith;
  untrusted = untrusted_copy;
  no_memory = refl;
  bounds = (process-IsCallable 1).bounds;
  counter = two_room3;
  room = (omega arith, omega arith, omega arith);
}

redirected-IsSent : IsSent list_table true 1 4 0x11234 3 redirected 0x21234 2
unfolding IsSent
redirected-IsSent = inr (refl, refl, refl)

dynamic_return-dynamic_call_example :
    (q : Process list_table) × (dynamic_call list_table
        (λ i. 0)
        0x3000
        true
        1
        4
        0x11234
        3
        redirected
      ≡ ok q)
    × (q.context ≡ record redirected.context { ra = 0x3000; t1 = 0x21234 })
    × ((left : Context)
        → (r : Process list_table) × (dynamic_return list_table (record q { context = left })
            ≡ ok r)
          × IsReturned list_table redirected left r)
dynamic_return-dynamic_call_example =
    dynamic_return-dynamic_call list_table (λ i. 0) 0x3000 true 1 4 0x11234 3 redirected 0x21234 2
      redirected-IsCallable two_handles (λ e. omega arith) redirected-IsSent process-IsOpen
      (1, omega arith, one_idle)

pop_cross-region_zero_example :
    (q : Process list_table) × (r : Process list_table) × (cross_call list_table
        (λ i. 0)
        0x3000
        1
        2
        (process 0)
      ≡ ok q)
    × (pop_cross list_table q ≡ ok r)
    × (region r.dasics.csr 0 ≡ record { v_bit = 1; lo = 0x21020; hi = 0x23000 })
pop_cross-region_zero_example =
    pop_cross-region_zero list_table (λ i. 0) 0x3000 1 2 (process 0) (process-IsCallable 0)
      two_handles zero_idle

cross_call_lem_example :
    let p = process 1 in
    let h = two.available_handle in
    let jump = jumpcfg_alloc 0x21020 0x23000 p.dasics.csr in
    (q : Process list_table) × (cross_call list_table (λ i. 0) 0x3000 1 2 p ≡ ok q)
    × IsCall list_table h jump.1 q
    × ((q.elfs (q.stack.cells q.stack.top).target).namespace_func ≡ none)
    × (q.context ≡ record p.context { ra = 0x3000 })
    × (q.stack.top + sizeof_cross ≡ p.stack.top)
    × ((q.stack.cells q.stack.top).ra ≡ 0x4000)
    × ((i : ℕ)
        → i < 3
        → entry_of list_table (h + i) q.dasics
          ≡ some (call_entry list_table h (modules 2) p.context i))
    × ((k : ℕ)
        → (k < h) ⊎ (h + 3 ≤ k)
        → entry_of list_table k q.dasics ≡ entry_of list_table k p.dasics)
    × ((i : ℕ) → i < 4 → region q.dasics.csr i ≡ region jump.0 i)
cross_call_lem_example =
    let c = process-IsCallable 1 in
    cross_call_lem list_table (λ i. 0) 0x3000 1 2 (process 1) c.another c.untrusted c.no_memory
      c.bounds c.counter c.room

abbrev called : Process list_table
called = cross_call_lem_example.0

jump_one : (jumpcfg_alloc 0x21020 0x23000 (process 1).dasics.csr).1 ≡ 1
unfolding program jumpcfg_alloc first_idle
jump_one = refl

called-IsCall : IsCall list_table two.available_handle 1 called
called-IsCall = rw jump_one at cross_call_lem_example.2

-- The module that was called holds one block, under handle 1.
abbrev held : Bound
held = record { addr = 0x900; length = 16; handler = 1 }

abbrev with_block : Process list_table
with_block = record called {
  elfs = λ p. record (modules 2) { namespace_func = some 7 };
  mems = λ m. record (init_func_mem 0x100) { mem = held ∷ [] };
}

with_block-IsCall : IsCall list_table two.available_handle 1 with_block
with_block-IsCall =
    let c = called-IsCall in
    record {
      bounds = c.bounds;
      lowest = c.lowest;
      fits = c.fits;
      three = c.three;
      handles = c.handles;
      held = c.held;
      jump = c.jump;
      no_other_jump = c.no_other_jump;
    }

one_block : recorded (with_block.elfs 0) with_block.mems ≡ held ∷ []
unfolding recorded is_main
one_block = refl

handles_from_two : two.available_handle ≡ 2
unfolding program
handles_from_two = refl

still_there : entry_of list_table 1 called.dasics ≡ some second
still_there = cross_call_lem_example.8 1 (inl (omega (arith, handles_from_two))) ∙ two_has_second

held-AreOwned : AreOwned list_table (held ∷ []) called.dasics
held-AreOwned =
    (inr ((λ e. omega arith), (λ e. omega arith), owns-nil 1, (second, still_there)), tt)

held_apart : (i : ℕ) → i < 3 → owns (held ∷ []) (two.available_handle + i) ≡ false
unfolding owns
held_apart i hi = ground (arith, handles_from_two)

pop_cross-blocks_example :
    let h = two.available_handle in
    (q : Process list_table) × (pop_cross list_table with_block ≡ ok q)
    × IsValid list_table q.dasics
    × (q.context ≡ record called.context { ra = (called.stack.cells called.stack.top).ra })
    × (q.stack.top ≡ called.stack.top + sizeof_cross)
    × ((k : ℕ)
        → entry_of list_table k q.dasics ≡ (
            if owns (cells_of list_table with_block) k
            then none
            else if leb h k && ltb k (h + 3)
            then none
            else entry_of list_table k called.dasics))
    × ((i : ℕ)
        → i < 4
        → region q.dasics.csr i ≡ (
            if not (1 == 0) && (1 == i)
            then record (region called.dasics.csr i) { v_bit = 0 }
            else region called.dasics.csr i))
pop_cross-blocks_example =
    pop_cross-blocks list_table two.available_handle 1 with_block with_block-IsCall
      (rw one_block held-AreOwned) (λ i hi. rw one_block (held_apart i hi)) two_handles
      (omega arith)
