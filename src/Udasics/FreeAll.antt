-- ===== src/Udasics/FreeAll.antt =====
-- `dasics_libcfg_free_all`: what is in force afterwards.
use lib_dasics.Base.{
  ℕ, zero, suc, ◌+◌, ◌<◌, ◌≡◌, ◌≢◌, ◌⊎◌, inl, inr, refl, arith, ◌==◌, if◌then◌else◌, Bool-cases,
  Option-cases,
}
use lib_dasics.Udasics.Table.{HashTable}
use lib_dasics.Udasics.State.{Dasics, minus_one}
use lib_dasics.Udasics.Libcfg.{release, libcfg_free, free_from, libcfg_free_all}
use lib_dasics.Udasics.Slots.{IsLive}
use lib_dasics.Udasics.Invariant.{IsValid, del-IsValid, clear_slot-IsValid}
use lib_dasics.Udasics.Free.{
  libcfg_free-IsValid, libcfg_free_lem, release-eq, marked_slot, marked_slot-some,
}

module _ (H : HashTable) where
  release-map :
      (handle left idx : ℕ) (s : Dasics H.T) (i : ℕ)
      → ((release H handle left idx s).handle_map i ≡ s.handle_map i)
        ⊎ ((release H handle left idx s).handle_map i ≡ minus_one)
  unfolding release
  release-map handle zero idx s i = inl refl
  release-map handle (suc left) idx s i = elim (Bool-cases (s.handle_map idx == handle)) [
    | inl y ↦ elim (Bool-cases (idx == i)) [
      | inl e ↦ inr (rw (y, e) refl)
      | inr n ↦ inl (rw (y, n) refl)
    ]
    | inr n ↦ rw n (release-map handle left (idx + 1) s i)
  ]

  -- A mark stays, or becomes -1.
  libcfg_free-map :
      (handle : ℕ) (s : Dasics H.T) (i : ℕ)
      → ((libcfg_free H handle s).0.handle_map i ≡ s.handle_map i)
        ⊎ ((libcfg_free H handle s).0.handle_map i ≡ minus_one)
  unfolding libcfg_free
  libcfg_free-map handle s i =
      ground
        (arith, release-map handle 16 0 (record s { bounds_table = H.del handle s.bounds_table }) i)

  -- To free handle 0 keeps validity too, whichever register it releases.
  free_zero-IsValid : (s : Dasics H.T) → IsValid H s → IsValid H (libcfg_free H 0 s).0
  unfolding libcfg_free
  free_zero-IsValid s v =
      let d : Dasics H.T = record s { bounds_table = H.del 0 s.bounds_table } in
      let deleted : IsValid H d = del-IsValid H v 0 (λ nz. absurd (nz refl)) in
      let released : IsValid H (release H 0 16 0 d) =
        rw (release-eq H 0 16 0 d) (elim (Option-cases (marked_slot 0 16 0 d.handle_map)) [
          | inl none_marked ↦ rw none_marked deleted
          | inr (i, marked) ↦
              rw marked
                (clear_slot-IsValid H deleted i (marked_slot-some 0 16 0 d.handle_map i marked).2)
        ]) in
      elim (Option-cases (H.find 0 s.bounds_table)) [
        | inl missing ↦ rw missing v
        | inr (e, found) ↦ rw found released
      ]

  -- The loop from `start` has passed the registers below `n`.
  record IsPassed (start : Dasics H.T) (n : ℕ) (s : Dasics H.T) : Type 0 where
    valid : IsValid H s
    marks : (i : ℕ) → (s.handle_map i ≡ start.handle_map i) ⊎ (s.handle_map i ≡ minus_one)
    freed : (i : ℕ) → i < n → start.handle_map i ≢ 0 → s.handle_map i ≡ minus_one

  marks_after :
      (start s : Dasics H.T) (n handle : ℕ)
      → IsPassed start n s
      → (i : ℕ)
      → ((libcfg_free H handle s).0.handle_map i ≡ start.handle_map i)
        ⊎ ((libcfg_free H handle s).0.handle_map i ≡ minus_one)
  marks_after start s n handle v i = elim (libcfg_free-map handle s i) [
    | inl same ↦ rw same (v.marks i)
    | inr gone ↦ inr gone
  ]

  freed_after :
      (start s : Dasics H.T) (n handle : ℕ)
      → IsPassed start n s
      → (i : ℕ) → i < n
      → start.handle_map i ≢ 0
      → (libcfg_free H handle s).0.handle_map i ≡ minus_one
  freed_after start s n handle v i hi nz =
      ground (arith, libcfg_free-map handle s i, v.freed i hi nz)

  -- One round.
  step-IsPassed :
      (start s : Dasics H.T) (n : ℕ)
      → n < 16
      → IsPassed start n s
      → IsPassed start
          (n + 1)
          (if s.handle_map n == minus_one then s else (libcfg_free H (s.handle_map n) s).0)
  step-IsPassed start s n lt v = elim (Bool-cases (s.handle_map n == minus_one)) [
    | inl y ↦
        rw y (record {
          valid = v.valid;
          marks = v.marks;
          freed = λ i hi nz. ground (arith, v.freed i);
        })
    | inr f ↦
        let h = s.handle_map n in
        rw f (elim (Bool-cases (h == 0)) [
          | inl z ↦
              let is_zero : h ≡ 0 = ground arith in
              record {
                valid = rw is_zero (free_zero-IsValid s v.valid);
                marks = marks_after start s n h v;
                freed = λ i hi nz. elim (Bool-cases (i == n)) [
                  | inl y ↦
                      let q : i ≡ n = ground arith in absurd (ground (arith, v.marks n, rw q at nz))
                  | inr g ↦ freed_after start s n h v i (ground arith) nz
                ];
              }
          | inr nz_h ↦
              let nz : h ≢ 0 = λ e. ground arith in
              let live = v.valid.in_use n lt nz (λ e. ground arith) in
              let found = v.valid.held n lt live nz in
              let (r0, table, absent, slots, dead) = libcfg_free_lem H h s _ v.valid nz found in
              record {
                valid = libcfg_free-IsValid H h s _ v.valid nz found;
                marks = marks_after start s n h v;
                freed = λ i hi nz'. elim (Bool-cases (i == n)) [
                  | inl y ↦
                      let q : i ≡ n = ground arith in
                      rw q (ground (arith, absent n lt, libcfg_free-map h s n))
                  | inr g ↦ freed_after start s n h v i (ground arith) nz'
                ];
              }
        ])
  ]

  free_from-IsPassed :
      (start : Dasics H.T) (left n : ℕ) (s : Dasics H.T)
      → n + left ≡ 16
      → IsPassed start n s
      → IsPassed start 16 (free_from H left n s)
  unfolding free_from
  free_from-IsPassed start zero n s e v = record {
    valid = v.valid;
    marks = v.marks;
    freed = λ i hi. v.freed i (omega arith);
  }
  free_from-IsPassed start (suc left) n s e v =
      free_from-IsPassed start left (n + 1) _ (omega arith)
        (step-IsPassed start s n (omega arith) v)

  -- In a valid state, `dasics_libcfg_free_all` answers 0 and leaves a valid state, and of the
  -- registers none whose mark was not 0 is live afterwards.
  pub libcfg_free_all_lem :
      (s : Dasics H.T)
      → IsValid H s
      → let r = libcfg_free_all H s in
        (r.1 ≡ 0) × IsValid H r.0 × ((i : ℕ) → i < 16 → s.handle_map i ≢ 0 → ¬ IsLive r.0 i)
  unfolding libcfg_free_all
  libcfg_free_all_lem s v =
      let w =
        free_from-IsPassed s 16 0 s refl
          (record { valid = v; marks = λ i. inl refl; freed = λ i hi. absurd (omega arith) }) in
      let v' = w.valid in
      (
        refl,
        v',
        λ i hi nz live.
            let gone = w.freed i hi nz in
            ground (arith, v'.held i hi live, v'.fresh minus_one, v'.counter),
      )
