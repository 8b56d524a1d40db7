-- ===== src/Cross/Release.antt =====
-- The loops of `pop_cross`: the handles and the jump region of a call are given up.
use lib_dasics.Base.{
  ℕ, zero, suc, ◌+◌, ◌<◌, ◌≤◌, ◌≡◌, ◌≢◌, refl, arith, false, ◌&&◌, none, some, ltb, leb, ◌==◌,
  if◌then◌else◌, Bool-cases, inl, inr, ◌∙◌,
}
use lib_dasics.Base.Result.{ok}
use lib_dasics.Udasics.Table.{HashTable, Entry}
use lib_dasics.Udasics.State.{Dasics, csr_libcfg}
use lib_dasics.Udasics.Libcfg.{libcfg_free}
use lib_dasics.Udasics.Invariant.{IsValid, entry_of}
use lib_dasics.Udasics.Free.{libcfg_free-IsValid, libcfg_free_lem, libcfg_free-csr}
use lib_dasics.Jumpcfg.{jumpcfg_free, jumpcfg_width}
use lib_dasics.Jumpcfg.Laws.{jumpcfg_free_lem}
use lib_dasics.Cross.{free_handles, free_jumps}

module _ (H : HashTable) where
  -- From `i` on, `left` handles that follow each other are in the table.
  abbrev AreHeld : (ℕ → ℕ) → ℕ → ℕ → ℕ → Dasics H.T → Type 0
  AreHeld handle h left i s =
      (j : ℕ)
      → i ≤ j
      → j < i + left
      → (handle j ≡ h + j) × ((e : Entry) × (entry_of H (h + j) s ≡ some e))

  -- What the loop leaves: a valid state without those handles, the other registers unwritten.
  abbrev AreFreed : ℕ → ℕ → ℕ → Dasics H.T → Dasics H.T → Type 0
  AreFreed h left i s t =
      IsValid H t
      × ((k : ℕ)
          → entry_of H k t
            ≡ (if leb (h + i) k && ltb k (h + i + left) then none else entry_of H k s))
      × ((n : ℕ) → n ≢ csr_libcfg → t.csr n ≡ s.csr n)

  free_handles-step :
      (handle : ℕ → ℕ) (k left i : ℕ) (s : Dasics H.T)
      → k ≢ 0
      → handle i ≡ k
      → (libcfg_free H k s).1 ≡ 0
      → free_handles H handle (suc left) i s
        ≡ free_handles H handle left (i + 1) (libcfg_free H k s).0
  unfolding free_handles
  free_handles-step handle k left i s nz here done =
      let f : (k == 0) ≡ false = ground arith in rw (here, f, done) refl

  pub free_handles_lem :
      (handle : ℕ → ℕ) (h left i : ℕ) (s : Dasics H.T)
      → h ≢ 0
      → IsValid H s
      → AreHeld handle h left i s
      → (t : Dasics H.T) × (free_handles H handle left i s ≡ ok t) × AreFreed h left i s t
  unfolding free_handles
  free_handles_lem handle h zero i s nz v held = (s, refl, (v, (λ k. ground arith), λ n ne. refl))
  free_handles_lem handle h (suc left) i s nz v held =
      let (here, (e, found)) = held i (omega arith) (omega arith) in
      let r = libcfg_free H (h + i) s in
      let (ok_r, table, absent, slots, dead) =
        libcfg_free_lem H (h + i) s e v (omega arith) found in
      let v' = libcfg_free-IsValid H (h + i) s e v (omega arith) found in
      let next : AreHeld handle h left (i + 1) r.0 = λ j lo hi.
        let (is_j, (e_j, found_j)) = held j (omega arith) (omega arith) in
        (is_j, (e_j, ground (arith, table (h + j), found_j))) in
      let (t, run, (v_t, table_t, same)) = free_handles_lem handle h left (i + 1) r.0 nz v' next in
      (
        t,
        free_handles-step handle (h + i) left i s (omega arith) here ok_r ∙ run,
        (
          v_t,
          (λ k. ground (arith, table_t k, table k)),
          λ n ne. same n ne ∙ libcfg_free-csr H (h + i) n s ne,
        ),
      )

  free_jumps-skip :
      (jmpcfg : ℕ → ℕ) (left i : ℕ) (s : Dasics H.T)
      → jmpcfg i ≡ 0
      → free_jumps H jmpcfg (suc left) i s ≡ free_jumps H jmpcfg left (i + 1) s
  unfolding free_jumps
  free_jumps-skip jmpcfg left i s e = rw e refl

  free_jumps-close :
      (jmpcfg : ℕ → ℕ) (left i : ℕ) (s : Dasics H.T)
      → jmpcfg i ≢ 0
      → jmpcfg i < 4
      → free_jumps H jmpcfg (suc left) i s
        ≡ free_jumps H jmpcfg left (i + 1) (record s { csr = (jumpcfg_free (jmpcfg i) s.csr).0 })
  unfolding free_jumps
  free_jumps-close jmpcfg left i s nz lt =
      let f : (jmpcfg i == 0) ≡ false = ground arith in
      rw (f, ((jumpcfg_free_lem s.csr (jmpcfg i)).1 lt).0) refl

  free_jumps-zeros :
      (jmpcfg : ℕ → ℕ) (left i : ℕ) (s : Dasics H.T)
      → ((j : ℕ) → i ≤ j → jmpcfg j ≡ 0)
      → free_jumps H jmpcfg left i s ≡ ok s
  unfolding free_jumps
  free_jumps-zeros jmpcfg zero i s zeros = refl
  free_jumps-zeros jmpcfg (suc left) i s zeros =
      rw (zeros i (omega arith))
        (free_jumps-zeros jmpcfg left (i + 1) s (λ j h. zeros j (omega arith)))

  -- With one region recorded, `free_jumps` closes it unless its number is 0, which is passed over.
  pub free_jumps_lem :
      (jmpcfg : ℕ → ℕ) (s : Dasics H.T)
      → jmpcfg 0 < 4
      → ((i : ℕ) → 0 < i → jmpcfg i ≡ 0)
      → free_jumps H jmpcfg jumpcfg_width 0 s
        ≡ ok (if jmpcfg 0 == 0 then s else record s { csr = (jumpcfg_free (jmpcfg 0) s.csr).0 })
  free_jumps_lem jmpcfg s lt rest = elim (Bool-cases (jmpcfg 0 == 0)) [
    | inl y ↦ rw y (
        free_jumps-skip jmpcfg 3 0 s (ground arith)
        ∙ free_jumps-zeros jmpcfg 3 1 s (λ j h. rest j (omega arith)))
    | inr n ↦ rw n (
        free_jumps-close jmpcfg 3 0 s (λ e. ground arith) lt
        ∙ free_jumps-zeros jmpcfg 3 1 _ (λ j h. rest j (omega arith)))
  ]
