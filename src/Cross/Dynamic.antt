-- ===== src/Cross/Dynamic.antt =====
-- The two entry points from assembly of src/maincall/umaincall.c: a call through the PLT, and the return
-- from it.
use lib_dasics.Base.{
  none, ℕ, ◌+◌, ◌<◌, ◌≤◌, ◌≡◌, ◌≢◌, ◌⊎◌, refl, arith, Bool, true, false, ◌&&◌, not, some, ltb, leb,
  ◌==◌, Bool-cases, inl, inr, ◌∙◌, sym,
}
use lib_dasics.Base.Result.{ok}
use lib_dasics.Word.{add64, sub64}
use lib_dasics.Udasics.Table.{HashTable}
use lib_dasics.Udasics.State.{Csrs}
use lib_dasics.Udasics.Invariant.{IsValid, entry_of}
use lib_dasics.Jumpcfg.{jumpcfg_alloc}
use lib_dasics.Jumpcfg.Laws.{IsOpen, region, jumpcfg_alloc_lem}
use lib_dasics.Funcmem.{Context}
use lib_dasics.Cross.{sizeof_cross, Process, cross_call, dynamic_call, dynamic_return}
use lib_dasics.Cross.Laws.{IsCall, pop_cross_lem}
use lib_dasics.Cross.Call.{cross_call_lem}
use lib_dasics.Cross.RoundTrip.{IsCallable}

module _ (H : HashTable) where
  -- The call of function `idx` of module `elf` goes to the address `to` of module `to_elf`: to the
  -- target itself, or, if the function is redirected, to the same place in its copy.
  unfoldable pub IsSent : Bool → ℕ → ℕ → ℕ → ℕ → Process H → ℕ → ℕ → Type 0
  IsSent redirect elf idx target target_elf p to to_elf =
      let switched = not ((p.elfs elf).redirect_switch (idx + 2) == 0) && redirect in
      ((switched ≡ false) × (to ≡ target) × (to_elf ≡ target_elf))
      ⊎ ((switched ≡ true)
          × ((p.elfs target_elf).copy_lib_elf ≡ some to_elf)
          × (to ≡ add64 (sub64 target (p.elfs target_elf).l_addr) (p.elfs to_elf).l_addr))

  -- The state after the return: with the registers that the module left, but for the address.
  pub record IsReturned (p : Process H) (left : Context) (r : Process H) : Type 0 where
    pub bounds : IsValid H r.dasics
    pub context : r.context ≡ record left { ra = p.context.ra; t1 = p.context.ra }
    pub top : r.stack.top ≡ p.stack.top
    pub table : (k : ℕ) → entry_of H k r.dasics ≡ entry_of H k p.dasics
    pub kept :
        (i : ℕ) → i < 4 → IsOpen p.dasics.csr i → region r.dasics.csr i ≡ region p.dasics.csr i
    pub shut : (i : ℕ) → i < 4 → ¬ IsOpen p.dasics.csr i → ¬ IsOpen r.dasics.csr i

  -- The registers play no part in whether a call can be taken down.
  IsCall-context :
      (h j : ℕ) (q : Process H) (context : Context)
      → IsCall H h j q
      → IsCall H h j (record q { context = context })
  IsCall-context h j q context c = record {
    bounds = c.bounds;
    lowest = c.lowest;
    fits = c.fits;
    three = c.three;
    handles = c.handles;
    held = c.held;
    jump = c.jump;
    no_other_jump = c.no_other_jump;
  }

  module _ (rand : ℕ → ℕ) (maincall : ℕ) (redirect : Bool) (elf idx target target_elf : ℕ)
      (p : Process H) (to to_elf : ℕ) where
    -- The call, once it is known where it goes.
    dynamic_call-cross_call :
        (p.elfs elf).plt_begin ≢ 0
        → IsSent redirect elf idx target target_elf p to to_elf
        → dynamic_call H rand maincall redirect elf idx target target_elf p
          ≡ cross_call H rand maincall elf to_elf
              (record p { context = record p.context { t1 = to } })
    unfolding dynamic_call IsSent
    dynamic_call-cross_call begun (inl (off, same, same_elf)) =
        let there : ((p.elfs elf).plt_begin == 0) ≡ false = ground (arith, begun) in
        rw (there, off, same, same_elf) refl
    dynamic_call-cross_call begun (inr (on, copy, moved)) =
        let there : ((p.elfs elf).plt_begin == 0) ≡ false = ground (arith, begun) in
        rw (there, on, copy, moved) refl

    module _ (c : IsCallable H elf to_elf p) (nz : p.dasics.available_handle ≢ 0) where
      abbrev jump : Csrs × ℕ
      jump = jumpcfg_alloc (p.elfs to_elf).plt_start (p.elfs to_elf).text_end p.dasics.csr

      -- Whatever region is taken, but region 0.
      returned :
          (q : Process H)
          → IsCall H p.dasics.available_handle jump.1 q
          → (q.elfs (q.stack.cells q.stack.top).target).namespace_func ≡ none
          → q.stack.top + sizeof_cross ≡ p.stack.top
          → (q.stack.cells q.stack.top).ra ≡ p.context.ra
          → ((k : ℕ)
              → (k < p.dasics.available_handle) ⊎ (p.dasics.available_handle + 3 ≤ k)
              → entry_of H k q.dasics ≡ entry_of H k p.dasics)
          → ((i : ℕ) → i < 4 → region q.dasics.csr i ≡ region jump.0 i)
          → jump.1 < 4
          → jump.1 ≢ 0
          → ¬ IsOpen p.dasics.csr jump.1
          → ((i : ℕ) → i < 4 → i ≢ jump.1 → region jump.0 i ≡ region p.dasics.csr i)
          → (left : Context)
          → (r : Process H) × (dynamic_return H (record q { context = left }) ≡ ok r)
            × IsReturned p left r
      unfolding dynamic_return
      returned q call empty top_q ra_q others regions_q lt nz_j free same left =
          let h = p.dasics.available_handle in
          let (r, popped, v, context_r, top_r, table, regions_r) =
            pop_cross_lem H h jump.1 (record q { context = left })
              (IsCall-context h jump.1 q left call) empty nz lt in
          (
            record r { context = record r.context { t1 = r.context.ra } },
            rw popped refl,
            record {
              bounds = v;
              context = rw (context_r, ra_q) refl;
              top = top_r ∙ top_q;
              table = λ k. table k ∙ elim (Bool-cases (leb h k && ltb k (h + 3))) [
                | inl y ↦ rw y (sym (c.bounds.fresh k (ground arith)))
                | inr n ↦ rw n (others k (ground arith))
              ];
              kept = λ i hi open_p.
                  let apart : (jump.1 == i) ≡ false = elim (Bool-cases (jump.1 == i)) [
                    | inr n ↦ n
                    | inl y ↦ let e : jump.1 ≡ i = ground arith in absurd (free (rw e open_p))
                  ] in
                  ground (arith, regions_r i hi, regions_q i hi, same i hi, apart);
              shut = λ i hi shut_p open_r. elim (Bool-cases (jump.1 == i)) [
                | inl y ↦ ground (arith, regions_r i hi, nz_j)
                | inr n ↦
                    let e : region r.dasics.csr i ≡ region p.dasics.csr i =
                      ground (arith, regions_r i hi, regions_q i hi, same i hi) in
                    shut_p (rw e at open_r)
              ];
            },
          )

      -- If the PLT of the calling module is known, jump region 0 is in force and another is
      -- free, the call goes to an untrusted module that may be called, and handles are not 0,
      -- then the call through the PLT succeeds: it jumps to the target, or, if the function is
      -- redirected, to the same place in the copy of its module, with `dasics_umaincall` as
      -- return address. Whatever the module then leaves in the registers, the return succeeds:
      -- the return address and the jump go back to the caller, the depth of the stack, the table
      -- and the regions in force are as before the call, and no further region is in force.
      pub dynamic_return-dynamic_call :
          (p.elfs elf).plt_begin ≢ 0
          → IsSent redirect elf idx target target_elf p to to_elf
          → IsOpen p.dasics.csr 0
          → ((i : ℕ) × (i < 4) × ¬ IsOpen p.dasics.csr i)
          → (q : Process H) × (dynamic_call H rand maincall redirect elf idx target target_elf p
              ≡ ok q)
            × (q.context ≡ record p.context { ra = maincall; t1 = to })
            × ((left : Context)
                → (r : Process H) × (dynamic_return H (record q { context = left }) ≡ ok r)
                  × IsReturned p left r)
      dynamic_return-dynamic_call begun sent zero_open (i0, hi0, idle) =
          let p' : Process H = record p { context = record p.context { t1 = to } } in
          let (q, called, call, empty, context_q, top_q, ra_q, entries, others, regions_q) =
            cross_call_lem H rand maincall elf to_elf p' c.another c.untrusted c.no_memory c.bounds
              c.counter c.room in
          elim (jumpcfg_alloc_lem p.dasics.csr (p.elfs to_elf).plt_start (p.elfs to_elf).text_end) [
            | inl full ↦ absurd (idle (full.1 i0 hi0))
            | inr (lt, made, free, before, same) ↦
                let nz_j : jump.1 ≢ 0 = λ z. free (rw z zero_open) in
                (
                  q,
                  dynamic_call-cross_call begun sent ∙ called,
                  context_q,
                  returned q call empty top_q ra_q others regions_q lt nz_j free same,
                )
          ]
