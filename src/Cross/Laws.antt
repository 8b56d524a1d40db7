-- ===== src/Cross/Laws.antt =====
-- The return from a call between modules.
use lib_dasics.Base.{
  List, ◌-◌, true, false, ℕ, ◌+◌, ◌^◌, ◌<◌, ◌≤◌, ◌≡◌, ◌≢◌, refl, arith, ◌&&◌, not, none, some, ltb,
  leb, ◌==◌, if◌then◌else◌, Bool-cases, inl, inr, ◌∙◌,
}
use lib_dasics.Base.Result.{ok}
use lib_dasics.Word.{add64}
use lib_dasics.Udasics.Table.{HashTable, Entry}
use lib_dasics.Udasics.State.{Dasics}
use lib_dasics.Udasics.Invariant.{IsValid, entry_of}
use lib_dasics.Jumpcfg.{jumpcfg_free, jumpcfg_width}
use lib_dasics.Jumpcfg.Laws.{region, jumpcfg_free_lem}
use lib_dasics.Jumpcfg.Bounds.{region-csr, jumpcfg_free-IsValid}
use lib_dasics.Funcmem.{Bound}
use lib_dasics.Cross.Blocks.{
  owns, owns-nil, recorded, recorded-none, AreOwned, AreOwned-same, free_memory-recorded,
  free_blocks_lem,
}
use lib_dasics.Cross.{
  Cross, CrossStack, Process, sizeof_cross, malloc_size, top_cross, free_handles, free_jumps,
  free_memory, pop_cross,
}
use lib_dasics.Cross.Release.{free_handles_lem, free_jumps_lem}

module _ (H : HashTable) where
  -- The stack lies in its block and has room for one more record.
  abbrev pub HasRoom : CrossStack → Type 0
  HasRoom s =
      (s.base + sizeof_cross ≤ s.top)
      × (s.top ≤ s.base + malloc_size)
      × (s.base + malloc_size < 2 ^ 64)

  -- The call of which the record is on top of the stack can be taken down: its three handles `h`
  -- to `h + 2` are in the table, and its jump region is `j`.
  pub record IsCall (h j : ℕ) (p : Process H) : Type 0 where
    pub bounds : IsValid H p.dasics
    pub lowest : p.stack.top + sizeof_cross ≤ p.stack.base + malloc_size
    pub fits : p.stack.base + malloc_size < 2 ^ 64
    pub three : (p.stack.cells p.stack.top).handle_num ≡ 3
    pub handles : (i : ℕ) → i < 3 → (p.stack.cells p.stack.top).handle i ≡ h + i
    pub held : (i : ℕ) → i < 3 → (e : Entry) × (entry_of H (h + i) p.dasics ≡ some e)
    pub jump : (p.stack.cells p.stack.top).jmpcfg 0 ≡ j
    pub no_other_jump : (i : ℕ) → 0 < i → (p.stack.cells p.stack.top).jmpcfg i ≡ 0

  -- The return, from what its loops do.
  pop_cross-eq :
      (p : Process H) (c : Cross) (d1 d2 d3 : Dasics H.T)
      → top_cross p.stack ≡ ok c
      → free_handles H c.handle c.handle_num 0 p.dasics ≡ ok d1
      → free_jumps H c.jmpcfg jumpcfg_width 0 d1 ≡ ok d2
      → free_memory H (p.elfs c.target) p.mems d2 ≡ ok d3
      → pop_cross H p
        ≡ ok (record p {
          context = record p.context { ra = c.ra };
          dasics = d3;
          stack = record p.stack { top = add64 p.stack.top sizeof_cross };
        })
  unfolding pop_cross
  pop_cross-eq p c d1 d2 d3 e0 e1 e2 e3 = rw (e0, e1, e2, e3) refl

  top_cross-eq :
      (s : CrossStack)
      → s.top + sizeof_cross ≤ s.base + malloc_size
      → top_cross s ≡ ok (s.cells s.top)
  unfolding top_cross
  top_cross-eq s h = ground arith

  -- The registers after the jump region of a call is closed, if it is not 0.
  after_jump : ℕ → Dasics H.T → Dasics H.T
  after_jump j s = if j == 0 then s else record s { csr = (jumpcfg_free j s.csr).0 }

  after_jump_lem :
      (j : ℕ) (s : Dasics H.T)
      → IsValid H s
      → j < 4
      → IsValid H (after_jump j s)
        × ((after_jump j s).bounds_table ≡ s.bounds_table)
        × ((i : ℕ)
            → i < 4
            → region (after_jump j s).csr i ≡ (
                if not (j == 0) && (j == i)
                then record (region s.csr i) { v_bit = 0 }
                else region s.csr i))
  unfolding after_jump
  after_jump_lem j s v lt = elim (Bool-cases (j == 0)) [
    | inl y ↦ rw y (v, refl, λ i hi. refl)
    | inr n ↦
        let (done, closed, others) = (jumpcfg_free_lem s.csr j).1 lt in
        rw n (
          jumpcfg_free-IsValid H s v j,
          refl,
          λ i hi. elim (Bool-cases (j == i)) [
            | inl y ↦ let e : i ≡ j = ground arith in rw (y, e) closed
            | inr m ↦ rw m (others i hi (λ e. ground arith))
          ],
        )
  ]

  -- Handles of blocks are none of the three.
  not_in_three :
      (h : ℕ) (bs : List Bound)
      → ((i : ℕ) → i < 3 → owns bs (h + i) ≡ false)
      → (k : ℕ) → owns bs k ≡ true
      → (leb h k && ltb k (h + 3)) ≡ false
  not_in_three h bs apart k o = elim (Bool-cases (leb h k && ltb k (h + 3))) [
    | inr n ↦ n
    | inl y ↦
        let at_k : h + (k - h) ≡ k = ground arith in
        absurd (cc (rw at_k at (apart (k - h) (ground arith)), o))
  ]

  -- The blocks that the module that was called records.
  abbrev pub cells_of : Process H → List Bound
  cells_of p = recorded (p.elfs (p.stack.cells p.stack.top).target) p.mems

  -- The return takes down a call that is on top of the stack, with handles other than 0 and a
  -- jump region, also of a module that records blocks, if the cells in use have different
  -- handles other than 0, all in the table and none of the three: it succeeds and leaves a valid
  -- state, the return address is the recorded one, the record is dropped, the three handles and
  -- those of the blocks are out of the table, which is else as it was, and the jump region is
  -- closed, unless it is region 0, and no other changes.
  pub pop_cross-blocks :
      (h j : ℕ) (p : Process H)
      → IsCall h j p
      → AreOwned H (cells_of p) p.dasics
      → ((i : ℕ) → i < 3 → owns (cells_of p) (h + i) ≡ false)
      → h ≢ 0
      → j < 4
      → (q : Process H) × (pop_cross H p ≡ ok q)
        × IsValid H q.dasics
        × (q.context ≡ record p.context { ra = (p.stack.cells p.stack.top).ra })
        × (q.stack.top ≡ p.stack.top + sizeof_cross)
        × ((k : ℕ)
            → entry_of H k q.dasics ≡ (
                if owns (cells_of p) k
                then none
                else if leb h k && ltb k (h + 3)
                then none
                else entry_of H k p.dasics))
        × ((i : ℕ)
            → i < 4
            → region q.dasics.csr i ≡ (
                if not (j == 0) && (j == i)
                then record (region p.dasics.csr i) { v_bit = 0 }
                else region p.dasics.csr i))
  unfolding after_jump
  pop_cross-blocks h j p v own apart nz lt =
      let c = p.stack.cells p.stack.top in
      let bs = cells_of p in
      let (d1, run1, (v1, table1, same1)) =
        free_handles_lem H c.handle h 3 0 p.dasics nz v.bounds
          (λ i lo hi. (v.handles i hi, v.held i hi)) in
      let run2 : free_jumps H c.jmpcfg jumpcfg_width 0 d1 ≡ ok (after_jump j d1) =
        rw v.jump at (free_jumps_lem H c.jmpcfg d1 (rw v.jump lt) v.no_other_jump) in
      let (v2, table2, regions) = after_jump_lem j d1 v1 lt in
      let before : (k : ℕ)
          → entry_of H k (after_jump j d1)
            ≡ (if leb h k && ltb k (h + 3) then none else entry_of H k p.dasics) =
        λ k. rw table2 (ground (arith, table1 k)) in
      let own2 : AreOwned H bs (after_jump j d1) =
        AreOwned-same H bs p.dasics (after_jump j d1)
          (λ k o. before k ∙ rw (not_in_three h bs apart k o) refl) own in
      let (d3, run3, v3, table3, same3) = free_blocks_lem H bs (after_jump j d1) v2 own2 in
      (
        record p {
          context = record p.context { ra = c.ra };
          dasics = d3;
          stack = record p.stack { top = add64 p.stack.top sizeof_cross };
        },
        pop_cross-eq p c d1 (after_jump j d1) d3 (top_cross-eq p.stack v.lowest) (rw v.three run1)
            run2 (free_memory-recorded H (p.elfs c.target) p.mems (after_jump j d1) ∙ run3),
        v3,
        refl,
        omega (arith, v.lowest, v.fits),
        (λ k. rw (table3 k, before k) refl),
        λ i hi.
            region-csr (after_jump j d1).csr d3.csr i hi (λ n le. same3 n (omega arith))
            ∙ regions i hi
            ∙ rw (region-csr p.dasics.csr d1.csr i hi (λ n le. same1 n (omega arith))) refl,
      )

  -- The same for a module that records no function: the table is else as it was.
  pub pop_cross_lem :
      (h j : ℕ) (p : Process H)
      → IsCall h j p
      → (p.elfs (p.stack.cells p.stack.top).target).namespace_func ≡ none
      → h ≢ 0
      → j < 4
      → (q : Process H) × (pop_cross H p ≡ ok q)
        × IsValid H q.dasics
        × (q.context ≡ record p.context { ra = (p.stack.cells p.stack.top).ra })
        × (q.stack.top ≡ p.stack.top + sizeof_cross)
        × ((k : ℕ)
            → entry_of H k q.dasics
              ≡ (if leb h k && ltb k (h + 3) then none else entry_of H k p.dasics))
        × ((i : ℕ)
            → i < 4
            → region q.dasics.csr i ≡ (
                if not (j == 0) && (j == i)
                then record (region p.dasics.csr i) { v_bit = 0 }
                else region p.dasics.csr i))
  pop_cross_lem h j p v no_memory nz lt =
      let none_there = recorded-none (p.elfs (p.stack.cells p.stack.top).target) p.mems no_memory in
      let (q, popped, w, context, top, table, regions) =
        pop_cross-blocks h j p v (rw none_there tt) (λ i hi. rw none_there (owns-nil (h + i))) nz
          lt in
      (q, popped, w, context, top, (λ k. table k ∙ rw (none_there, owns-nil k) refl), regions)
