-- ===== src/Cross/Call.antt =====
-- What a call of an untrusted module sets up.
use lib_dasics.Base.{
  ℕ, zero, suc, ◌+◌, ◌^◌, ◌<◌, ◌≤◌, ◌≡◌, ◌≢◌, ◌⊎◌, refl, arith, false, none, some, update, ltb,
  ◌==◌, if◌then◌else◌, inr, ◌∙◌,
}
use lib_dasics.Base.Result.{ok}
use lib_dasics.Word.{add64, sub64}
use lib_dasics.Word.Align.{align8down, align8up}
use lib_dasics.Udasics.Table.{HashTable, Entry}
use lib_dasics.Udasics.State.{Dasics}
use lib_dasics.Udasics.Libcfg.{libcfg_alloc, new_entry}
use lib_dasics.Udasics.Invariant.{IsValid, entry_of}
use lib_dasics.Udasics.Alloc.{
  libcfg_alloc-IsValid, entry_of-libcfg_alloc, libcfg_alloc-csr, libcfg_alloc-counter,
}
use lib_dasics.Jumpcfg.{jumpcfg_alloc}
use lib_dasics.Jumpcfg.Laws.{region}
use lib_dasics.Jumpcfg.Bounds.{region-csr, jumpcfg_alloc-IsValid}
use lib_dasics.Funcmem.{Context}
use lib_dasics.Elf.{Elf, is_main}
use lib_dasics.Cross.{Cross, Process, sizeof_cross, push_cross, call_bounds, cross_call}
use lib_dasics.Cross.Laws.{HasRoom, IsCall}

below_three : (P : ℕ → Type 0) → P 0 → P 1 → P 2 → (i : ℕ) → i < 3 → P i
below_three P p q r zero h = p
below_three P p q r (suc zero) h = q
below_three P p q r (suc (suc zero)) h = r
below_three P p q r (suc (suc (suc i))) h = absurd (omega arith)

module _ (H : HashTable) where
  -- The three bounds of a call: read the read-only part, read and write the data and 16 pages of
  -- the stack below the stack pointer.
  pub call_entry : ℕ → Elf → Context → ℕ → Entry
  call_entry h target context i = record {
    handle = h + i;
    priv = if i == 0 then 10 else 11;
    lo = align8down (
        if i == 0
        then target.r_start
        else if i == 1
        then target.w_start
        else sub64 context.sp 0x10000);
    hi = align8up (
        if i == 0
        then target.r_end
        else if i == 1
        then target.w_end
        else add64 (sub64 context.sp 0x10000) 0x10000);
  }

  module _ (rand : ℕ → ℕ) (target : Elf) (context : Context) (s : Dasics H.T) (v : IsValid H s)
      (room : s.available_handle + 3 < 2 ^ 31) where
    h : ℕ
    h = s.available_handle

    call_bounds_lem :
        let r = call_bounds H rand target context s in
        IsValid H r.0
        × ((i : ℕ) → i < 3 → r.1 i ≡ s.available_handle + i)
        × ((i : ℕ)
            → i < 3
            → entry_of H (s.available_handle + i) r.0
              ≡ some (call_entry s.available_handle target context i))
        × ((k : ℕ)
            → (k < s.available_handle) ⊎ (s.available_handle + 3 ≤ k)
            → entry_of H k r.0 ≡ entry_of H k s)
        × ((n : ℕ) → 0x8b0 ≤ n → r.0.csr n ≡ s.csr n)
    unfolding call_bounds call_entry new_entry
    call_bounds_lem =
        let a = libcfg_alloc H (rand 0) 10 target.r_start target.r_end s in
        let va = libcfg_alloc-IsValid H (rand 0) 10 target.r_start target.r_end s v (omega arith) in
        let (ha, ta) =
          entry_of-libcfg_alloc H (rand 0) 10 target.r_start target.r_end s v (omega arith) in
        let na = libcfg_alloc-counter H (rand 0) 10 target.r_start target.r_end s v (omega arith) in
        let ca = libcfg_alloc-csr H (rand 0) 10 target.r_start target.r_end s v (omega arith) in
        let b = libcfg_alloc H (rand 1) 11 target.w_start target.w_end a.0 in
        let vb =
          libcfg_alloc-IsValid H (rand 1) 11 target.w_start target.w_end a.0 va
            (omega (arith, na)) in
        let (hb, tb) =
          entry_of-libcfg_alloc H (rand 1) 11 target.w_start target.w_end a.0 va
            (omega (arith, na)) in
        let nb =
          libcfg_alloc-counter H (rand 1) 11 target.w_start target.w_end a.0 va
            (omega (arith, na)) in
        let cb =
          libcfg_alloc-csr H (rand 1) 11 target.w_start target.w_end a.0 va (omega (arith, na)) in
        let sp = sub64 context.sp 0x10000 in
        let vc =
          libcfg_alloc-IsValid H (rand 2) 3 sp (add64 sp 0x10000) b.0 vb (omega (arith, na, nb)) in
        let (hc, tc) =
          entry_of-libcfg_alloc H (rand 2) 3 sp (add64 sp 0x10000) b.0 vb (omega (arith, na, nb)) in
        let cc3 =
          libcfg_alloc-csr H (rand 2) 3 sp (add64 sp 0x10000) b.0 vb (omega (arith, na, nb)) in
        (
          vc,
          below_three _ (ground (arith, ha)) (ground (arith, hb, na)) (ground (arith, hc, nb, na)),
          below_three _
              (ground (
                arith,
                ha,
                hb,
                hc,
                na,
                nb,
                ta s.available_handle,
                tb s.available_handle,
                tc s.available_handle,
              ))
              (ground (
                arith,
                ha,
                hb,
                hc,
                na,
                nb,
                tb (s.available_handle + 1),
                tc (s.available_handle + 1),
              ))
              (ground (arith, ha, hb, hc, na, nb, tc (s.available_handle + 2))),
          (λ k out. ground (arith, ha, hb, hc, na, nb, ta k, tb k, tc k)),
          λ n le.
              cc3 n (omega arith) (inr le)
              ∙ (cb n (omega arith) (inr le) ∙ ca n (omega arith) (inr le)),
        )

  pub cross_call_lem :
      (rand : ℕ → ℕ) (maincall entry target : ℕ) (p : Process H)
      → entry ≢ target
      → is_main (p.elfs target) ≡ false
      → (p.elfs target).namespace_func ≡ none
      → IsValid H p.dasics
      → p.dasics.available_handle + 3 < 2 ^ 31
      → HasRoom H p.stack
      → let h = p.dasics.available_handle in
        let j = (jumpcfg_alloc (p.elfs target).plt_start (p.elfs target).text_end p.dasics.csr).1 in
        (q : Process H) × (cross_call H rand maincall entry target p ≡ ok q)
        × IsCall H h j q
        × ((q.elfs (q.stack.cells q.stack.top).target).namespace_func ≡ none)
        × (q.context ≡ record p.context { ra = maincall })
        × (q.stack.top + sizeof_cross ≡ p.stack.top)
        × ((q.stack.cells q.stack.top).ra ≡ p.context.ra)
        × ((i : ℕ)
            → i < 3
            → entry_of H (h + i) q.dasics ≡ some (call_entry h (p.elfs target) p.context i))
        × ((k : ℕ) → (k < h) ⊎ (h + 3 ≤ k) → entry_of H k q.dasics ≡ entry_of H k p.dasics)
        × ((i : ℕ)
            → i < 4
            → region q.dasics.csr i
              ≡ region
                  (jumpcfg_alloc (p.elfs target).plt_start (p.elfs target).text_end p.dasics.csr).0
                  i)
  unfolding cross_call push_cross
  cross_call_lem rand maincall entry target p ne untrusted no_memory v room stack_room =
      let elf = p.elfs target in
      let jump = jumpcfg_alloc elf.plt_start elf.text_end p.dasics.csr in
      let s0 : Dasics H.T = record p.dasics { csr = jump.0 } in
      let v0 = jumpcfg_alloc-IsValid H p.dasics v elf.plt_start elf.text_end in
      let (v1, handles, entries, others, same) = call_bounds_lem rand elf p.context s0 v0 room in
      let r = call_bounds H rand elf p.context s0 in
      let c : Cross = record {
        begin = entry;
        target = target;
        func = elf.namespace_func;
        ra = p.context.ra;
        handle_num = 3;
        jmpcfg = update (λ i. 0) 0 jump.1;
        handle = r.1;
      } in
      let top = sub64 p.stack.top sizeof_cross in
      let (low, high, fits) = stack_room in
      let here : update p.stack.cells top c top ≡ c = ground arith in
      let free : ltb (sub64 p.stack.top p.stack.base) sizeof_cross ≡ false = ground arith in
      let other : (entry == target) ≡ false = ground arith in
      (
        record p {
          context = record p.context { ra = maincall };
          dasics = r.0;
          stack = record p.stack { top = top; cells = update p.stack.cells top c };
        },
        rw (other, untrusted, free) refl,
        record {
          bounds = v1;
          lowest = omega arith;
          fits = fits;
          three = rw here refl;
          handles = λ i hi. rw here (handles i hi);
          held = λ i hi. (call_entry p.dasics.available_handle elf p.context i, entries i hi);
          jump = rw here refl;
          no_other_jump = λ i pos. rw here (ground arith);
        },
        rw here no_memory,
        refl,
        omega arith,
        rw here refl,
        entries,
        others,
        λ i hi. region-csr jump.0 r.0.csr i hi same,
      )
