-- ===== src/Udasics/Runs.antt =====
-- The calls of src/udasics/udasics.c in any order, and the refinement of the bounds without
-- registers.
use lib_dasics.Base.{
  ℕ, ◌+◌, ◌^◌, ◌<◌, ◌≡◌, ◌≢◌, inl, inr, refl, arith, Bool, false, ap, Option-cases, Option, none,
  some, List, [], ◌∷◌, ◌==◌, if◌then◌else◌, ◌∙◌,
}
use lib_dasics.Udasics.Table.{Entry, HashTable}
use lib_dasics.Udasics.State.{Dasics, minus_one}
use lib_dasics.Udasics.Libcfg.{libcfg_alloc, libcfg_free, libcfg_get, ldst_checker, new_entry}
use lib_dasics.Udasics.Slots.{slot_entry, IsLive}
use lib_dasics.Udasics.Invariant.{IsValid, entry_of}
use lib_dasics.Udasics.Alloc.{libcfg_alloc-IsValid, entry_of-libcfg_alloc, libcfg_alloc-counter}
use lib_dasics.Udasics.Free.{
  libcfg_free_lem, libcfg_free-IsValid, libcfg_free-counter, libcfg_free-refused,
}
use lib_dasics.Udasics.Fault.{
  Allows, IsRefused, ldst_checker_lem, ldst_checker-IsValid, ldst_checker-counter,
}
use lib_dasics.Udasics.Spec.{Bounds, Call, alloc, free, get, access, Meets, MeetsAll}

module _ (H : HashTable) where
  -- What the callers see of the state.
  abbrev pub view : Dasics H.T → Bounds
  view s = record { entry = λ k. entry_of H k s; next = s.available_handle }

  -- One call; `rand` is the answer of `rand()`.
  unfoldable pub run : ℕ → Call → Dasics H.T → Dasics H.T × ℕ
  run rand (alloc cfg lo hi) s = libcfg_alloc H rand cfg lo hi s
  run rand (free h) s = libcfg_free H h s
  run rand (get h) s = (s, libcfg_get H h s)
  run rand (access addr is_read) s =
      let r = ldst_checker H rand addr is_read s in (r.0, if r.1 == minus_one then 0 else 1)

  -- When a call may be made: the counter is not at its last value, the handle to free is not 0, and
  -- the hardware has refused the access.
  abbrev MayRun : Call → Dasics H.T → Type 0
  MayRun (alloc cfg lo hi) s = s.available_handle + 1 < 2 ^ 31
  MayRun (free h) s = h ≢ 0
  MayRun (get h) s = Unit
  MayRun (access addr is_read) s = IsRefused addr is_read s

  -- Calls in any order, with their results.
  pub data Runs : Dasics H.T → List (Call × ℕ) → Dasics H.T → Type 0 where
    done : {s : Dasics H.T} → Runs s [] s
    then_run :
        {s t : Dasics H.T} {calls : List (Call × ℕ)} (rand : ℕ) (c : Call)
        → MayRun c s
        → Runs (run rand c s).0 calls t
        → Runs s ((c, (run rand c s).1) ∷ calls) t

  alloc-Meets :
      (rand cfg lo hi : ℕ) (s : Dasics H.T)
      → IsValid H s
      → s.available_handle + 1 < 2 ^ 31
      → let r = libcfg_alloc H rand cfg lo hi s in Meets (alloc cfg lo hi) (view s) (view r.0) r.1
  unfolding new_entry
  alloc-Meets rand cfg lo hi s v room =
      let (made, table) = entry_of-libcfg_alloc H rand cfg lo hi s v room in
      (made, libcfg_alloc-counter H rand cfg lo hi s v room, λ k. rw made at (table k))

  free-Meets :
      (h : ℕ) (s : Dasics H.T)
      → IsValid H s
      → h ≢ 0
      → Meets (free h) (view s) (view (libcfg_free H h s).0) (libcfg_free H h s).1
        × IsValid H (libcfg_free H h s).0
  free-Meets h s v nz = elim (Option-cases (entry_of H h s)) [
    | inr (e, found) ↦
        let r = libcfg_free_lem H h s e v nz found in
        (
          (libcfg_free-counter H h s, inl (e, found, r.0, r.1)),
          libcfg_free-IsValid H h s e v nz found,
        )
    | inl gone ↦
        let refused =
          libcfg_free-refused H h s (inr (H.find-iter h s.bounds_table v.distinct ∙ gone)) in
        rw refused ((refl, inr (gone, refl, λ k. refl)), v)
  ]

  run-Meets :
      (rand : ℕ) (c : Call) (s : Dasics H.T)
      → IsValid H s
      → MayRun c s
      → Meets c (view s) (view (run rand c s).0) (run rand c s).1 × IsValid H (run rand c s).0
  unfolding run libcfg_get
  run-Meets rand (alloc cfg lo hi) s v room =
      (alloc-Meets rand cfg lo hi s v room, libcfg_alloc-IsValid H rand cfg lo hi s v room)
  run-Meets rand (free h) s v nz = free-Meets h s v nz
  run-Meets rand (get h) s v u =
      let same = H.find-iter h s.bounds_table v.distinct in
      (
        (
          refl,
          (λ k. refl),
          ap (λ (o : Option Entry). elim o as (λ x. ℕ) [ none ↦ 0 | some e ↦ e.priv ]) same,
        ),
        v,
      )
  run-Meets rand (access addr is_read) s v refused =
      let kept = ldst_checker-IsValid H rand addr is_read s v refused in
      elim (ldst_checker_lem H rand addr is_read s v) [
        | inl miss ↦ (rw miss.0 (refl, (λ k. refl), inr (refl, miss.1)), kept)
        | inr (small, table, live, ok, known, others) ↦
            let hit : ((ldst_checker H rand addr is_read s).1 == minus_one) ≡ false =
              ground (arith, small) in
            (
              (
                ldst_checker-counter H rand addr is_read s v,
                (λ k. rw table refl),
                inl (rw hit refl, (_, _, known, ok)),
              ),
              kept,
            )
      ]

  -- From a valid state, any sequence of allocations, frees, reads and refused accesses, each made
  -- when it may be (the counter is not at its last value, the handle to free is not 0, the
  -- hardware refused the access), gives the results that Spec.Meets computes from the map from
  -- handles to bounds, and ends in a valid state with the bounds of that map. An allocation answers
  -- the next handle, a free 0, or -1 for a handle that is not in the map; a read answers the
  -- permissions of the handle, and 0, as the code does, for a handle that is not in the map, where
  -- README.md says that dasics_libcfg_get returns -1; an access is granted exactly if some bound of
  -- the map allows it.
  pub Runs-MeetsAll :
      {s t : Dasics H.T} {calls : List (Call × ℕ)}
      → IsValid H s
      → Runs s calls t
      → MeetsAll (view s) calls (view t) × IsValid H t
  Runs-MeetsAll v done = ((refl, λ k. refl), v)
  Runs-MeetsAll {s} v (then_run rand c may later) =
      let (step, v') = run-Meets rand c s v may in
      let (rest, w) = Runs-MeetsAll v' later in ((view (run rand c s).0, step, rest), w)

  -- After any such sequence from a valid state, if a register that is in force, and whose mark is
  -- not handle 0, lets an access through, then the table has the bound of its mark, and this bound
  -- allows the access.
  pub Runs-guarded :
      {s t : Dasics H.T} {calls : List (Call × ℕ)}
      → IsValid H s
      → Runs s calls t
      → (i addr : ℕ) (is_read : Bool) → i < 16
      → IsLive t i
      → t.handle_map i ≢ 0
      → Allows addr is_read (slot_entry t i)
      → (e : Entry) × (entry_of H (t.handle_map i) t ≡ some e) × Allows addr is_read e
  Runs-guarded {t} v runs i addr is_read hi live nz ok =
      let (met, w) = Runs-MeetsAll v runs in (slot_entry t i, w.held i hi live nz, ok)

  -- After any such sequence from a valid state, an access that the hardware refuses, but that some
  -- bound of the table allows, is granted by `dasics_ldst_checker`: some register is then in force
  -- and lets it through, and the table keeps its bounds.
  pub Runs-granted :
      {s t : Dasics H.T} {calls : List (Call × ℕ)}
      → IsValid H s
      → Runs s calls t
      → (rand addr : ℕ) (is_read : Bool) (k : ℕ) (e : Entry) → IsRefused addr is_read t
      → entry_of H k t ≡ some e
      → Allows addr is_read e
      → let r = run rand (access addr is_read) t in
        (r.1 ≡ 1)
        × ((i : ℕ) × (i < 16) × IsLive r.0 i × Allows addr is_read (slot_entry r.0 i))
        × ((j : ℕ) → entry_of H j r.0 ≡ entry_of H j t)
  unfolding run
  Runs-granted {t} v runs rand addr is_read k e refused found ok =
      let (met, w) = Runs-MeetsAll v runs in
      elim (ldst_checker_lem H rand addr is_read t w) [
        | inl miss ↦ absurd (miss.1 k e found ok)
        | inr (small, table, live, let_through, known, others) ↦
            let hit : ((ldst_checker H rand addr is_read t).1 == minus_one) ≡ false =
              ground (arith, small) in
            (rw hit refl, (_, small, live, let_through), λ j. rw table refl)
      ]
