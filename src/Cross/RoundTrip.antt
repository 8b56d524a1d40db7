-- ===== src/Cross/RoundTrip.antt =====
-- A call and its return.
use lib_dasics.Base.{
  ℕ, ◌+◌, ◌^◌, ◌<◌, ◌≡◌, ◌≢◌, refl, arith, false, ◌&&◌, not, none, ltb, leb, ◌==◌, if◌then◌else◌,
  Bool-cases, inl, inr, ◌∙◌, sym,
}
use lib_dasics.Base.Result.{ok}
use lib_dasics.Udasics.Table.{HashTable}
use lib_dasics.Udasics.State.{Csrs}
use lib_dasics.Udasics.Invariant.{IsValid, entry_of}
use lib_dasics.Jumpcfg.{jumpcfg_alloc}
use lib_dasics.Jumpcfg.Laws.{IsOpen, region, jumpcfg_alloc_lem}
use lib_dasics.Elf.{is_main}
use lib_dasics.Cross.{Process, cross_call, pop_cross}
use lib_dasics.Cross.Laws.{HasRoom, pop_cross_lem}
use lib_dasics.Cross.Call.{cross_call_lem}

module _ (H : HashTable) where
  -- When a module may be called as an untrusted one.
  pub record IsCallable (entry target : ℕ) (p : Process H) : Type 0 where
    pub another : entry ≢ target
    pub untrusted : is_main (p.elfs target) ≡ false
    pub no_memory : (p.elfs target).namespace_func ≡ none
    pub bounds : IsValid H p.dasics
    pub counter : p.dasics.available_handle + 3 < 2 ^ 31
    pub room : HasRoom H p.stack

  -- What is the same before and after: the context, the depth of the stack, and the table.
  pub record IsSame (p r : Process H) : Type 0 where
    pub bounds : IsValid H r.dasics
    pub context : r.context ≡ p.context
    pub top : r.stack.top ≡ p.stack.top
    pub table : (k : ℕ) → entry_of H k r.dasics ≡ entry_of H k p.dasics

  module _ (rand : ℕ → ℕ) (maincall entry target : ℕ) (p : Process H)
      (c : IsCallable entry target p) (nz : p.dasics.available_handle ≢ 0) where
    abbrev jump : Csrs × ℕ
    jump = jumpcfg_alloc (p.elfs target).plt_start (p.elfs target).text_end p.dasics.csr

    -- Call and return, whatever region is taken.
    returned :
        jump.1 < 4
        → (q : Process H) × (r : Process H) × (cross_call H rand maincall entry target p ≡ ok q)
          × (pop_cross H q ≡ ok r)
          × IsSame p r
          × ((i : ℕ)
              → i < 4
              → region r.dasics.csr i ≡ (
                  if not (jump.1 == 0) && (jump.1 == i)
                  then record (region jump.0 i) { v_bit = 0 }
                  else region jump.0 i))
    returned lt =
        let h = p.dasics.available_handle in
        let (q, called, call, empty, context_q, top_q, ra_q, entries, others, regions_q) =
          cross_call_lem H rand maincall entry target p c.another c.untrusted c.no_memory c.bounds
            c.counter c.room in
        let (r, popped, v, context_r, top_r, table, regions_r) =
          pop_cross_lem H h jump.1 q call empty nz lt in
        (
          q,
          r,
          called,
          popped,
          record {
            bounds = v;
            context = rw (context_r, context_q, ra_q) refl;
            top = top_r ∙ top_q;
            table = λ k. table k ∙ elim (Bool-cases (leb h k && ltb k (h + 3))) [
              | inl y ↦ rw y (sym (c.bounds.fresh k (ground arith)))
              | inr n ↦ rw n (others k (ground arith))
            ];
          },
          λ i hi. regions_r i hi ∙ rw (regions_q i hi) refl,
        )

    -- With jump region 0 in force and another free, a call of an untrusted module that may be
    -- called, with handles other than 0, and the return from it both succeed. They leave the
    -- context, the depth of the stack and the table as they were; regions that were in force are
    -- as they were and no further one is in force.
    pop_cross-cross_call :
        IsOpen p.dasics.csr 0
        → ((i : ℕ) × (i < 4) × ¬ IsOpen p.dasics.csr i)
        → (q : Process H) × (r : Process H) × (cross_call H rand maincall entry target p ≡ ok q)
          × (pop_cross H q ≡ ok r)
          × IsSame p r
          × ((i : ℕ)
              → i < 4
              → (IsOpen p.dasics.csr i → region r.dasics.csr i ≡ region p.dasics.csr i)
                × (¬ IsOpen p.dasics.csr i → ¬ IsOpen r.dasics.csr i))
    pop_cross-cross_call process-IsOpen (i0, hi0, idle) =
        elim (jumpcfg_alloc_lem p.dasics.csr (p.elfs target).plt_start (p.elfs target).text_end) [
          | inl full ↦ absurd (idle (full.1 i0 hi0))
          | inr (lt, made, free, before, same) ↦
              let nz_j : jump.1 ≢ 0 = λ z. free (rw z process-IsOpen) in
              let (q, r, called, popped, is_same, regions) = returned lt in
              (
                q,
                r,
                called,
                popped,
                is_same,
                λ i hi. elim (Bool-cases (jump.1 == i)) [
                  | inl y ↦
                      let e : jump.1 ≡ i = ground arith in
                      ((λ o. absurd (free (rw e o))), λ c o. ground (arith, regions i hi, nz_j))
                  | inr n ↦
                      let e : region r.dasics.csr i ≡ region p.dasics.csr i =
                        ground (arith, regions i hi, same i hi) in
                      ((λ o. e), λ c o. c (rw e at o))
                ],
              )
        ]

    -- With jump region 0 free, a call of an untrusted module that may be called, with handles
    -- other than 0, takes region 0, and the return leaves it in force: the text of the module
    -- that was called stays a target of jumps.
    pub pop_cross-region_zero :
        ¬ IsOpen p.dasics.csr 0
        → (q : Process H) × (r : Process H) × (cross_call H rand maincall entry target p ≡ ok q)
          × (pop_cross H q ≡ ok r)
          × (region r.dasics.csr 0
              ≡ record { v_bit = 1; lo = (p.elfs target).plt_start; hi = (p.elfs target).text_end })
    pop_cross-region_zero idle =
        elim (jumpcfg_alloc_lem p.dasics.csr (p.elfs target).plt_start (p.elfs target).text_end) [
          | inl full ↦ absurd (idle (full.1 0 (omega arith)))
          | inr (lt, made, free, before, same) ↦
              let z : jump.1 ≡ 0 = ground (arith, before 0, idle) in
              let (q, r, called, popped, is_same, regions) = returned lt in
              (q, r, called, popped, regions 0 (omega arith) ∙ ground (arith, z, made))
        ]
