-- ===== src/Cross/Blocks.antt =====
-- The last loop of `pop_cross`: the bounds of the blocks that the module recorded.
use lib_dasics.Base.{
  ℕ, ◌≡◌, ◌≢◌, ◌⊎◌, inl, inr, refl, arith, Bool, Bool-cases, Option-cases, true, false, ◌&&◌, ◌||◌,
  not, none, some, List, [], ◌∷◌, ◌==◌, if◌then◌else◌, ◌∙◌,
}
use lib_dasics.Base.Result.{ok}
use lib_dasics.Udasics.Table.{HashTable, Entry}
use lib_dasics.Udasics.State.{Dasics, minus_one, csr_libcfg}
use lib_dasics.Udasics.Libcfg.{libcfg_free}
use lib_dasics.Udasics.Invariant.{IsValid, entry_of}
use lib_dasics.Udasics.Free.{libcfg_free-IsValid, libcfg_free_lem, libcfg_free-csr}
use lib_dasics.Funcmem.{Bound, FuncMem}
use lib_dasics.Elf.{Elf, is_main}
use lib_dasics.Cross.{free_blocks, free_memory}

-- Some cell that is used has the handle.
unfoldable pub owns : List Bound → ℕ → Bool
owns [] k = false
owns (b ∷ bs) k = let rest = owns bs k in not (b.addr == 0) && (b.handler == k) || rest

-- The cells that the return goes through: none for a trusted module, or if no function is recorded.
unfoldable pub recorded : Elf → (ℕ → FuncMem) → List Bound
recorded e mems =
    if is_main e then [] else elim e.namespace_func [ none ↦ [] | some m ↦ (mems m).mem ]

pub recorded-none : (e : Elf) (mems : ℕ → FuncMem) → e.namespace_func ≡ none → recorded e mems ≡ []
unfolding recorded
recorded-none e mems h = elim (Bool-cases (is_main e)) [
  | inl y ↦ rw y refl
  | inr n ↦ rw (n, h) refl
]

pub owns-nil : (k : ℕ) → owns [] k ≡ false
unfolding owns
owns-nil k = refl

module _ (H : HashTable) where
  pub free_memory-recorded :
      (e : Elf) (mems : ℕ → FuncMem) (s : Dasics H.T)
      → free_memory H e mems s ≡ free_blocks H (recorded e mems) s
  unfolding recorded free_memory free_blocks
  free_memory-recorded e mems s = elim (Bool-cases (is_main e)) [
    | inl y ↦ rw y refl
    | inr n ↦ elim (Option-cases e.namespace_func) [
      | inl gone ↦ rw (n, gone) refl
      | inr (m, there) ↦ rw (n, there) refl
    ]
  ]

  -- The cells that are used have different handles other than 0, all in the table.
  abbrev pub AreOwned : List Bound → Dasics H.T → Type 0
  AreOwned [] s = Unit
  AreOwned (b ∷ bs) s =
      ((b.addr ≡ 0)
        ⊎ ((b.addr ≢ 0)
            × (b.handler ≢ 0)
            × (owns bs b.handler ≡ false)
            × ((e : Entry) × (entry_of H b.handler s ≡ some e))))
      × AreOwned bs s

  pub AreOwned-same :
      (bs : List Bound) (s t : Dasics H.T)
      → ((k : ℕ) → owns bs k ≡ true → entry_of H k t ≡ entry_of H k s)
      → AreOwned bs s
      → AreOwned bs t
  unfolding owns
  AreOwned-same [] s t same own = tt
  AreOwned-same (b ∷ bs) s t same (first, rest) = (
    elim first [
      | inl unused ↦ inl unused
      | inr (used, nz, apart, (e, found)) ↦
          inr (used, nz, apart, (e, same b.handler (ground (arith, used)) ∙ found))
    ],
    AreOwned-same bs s t (λ k o. same k (ground (arith, o))) rest,
  )

  pub free_blocks_lem :
      (bs : List Bound) (s : Dasics H.T)
      → IsValid H s
      → AreOwned bs s
      → (t : Dasics H.T) × (free_blocks H bs s ≡ ok t)
        × IsValid H t
        × ((k : ℕ) → entry_of H k t ≡ (if owns bs k then none else entry_of H k s))
        × ((n : ℕ) → n ≢ csr_libcfg → t.csr n ≡ s.csr n)
  unfolding free_blocks owns
  free_blocks_lem [] s v own = (s, refl, v, (λ k. refl), λ n ne. refl)
  free_blocks_lem (b ∷ bs) s v (first, rest) = elim first [
    | inl unused ↦
        let is_zero : (b.addr == 0) ≡ true = ground (arith, unused) in
        let (t, done, w, table, regs) = free_blocks_lem bs s v rest in
        (t, rw is_zero done, w, (λ k. rw is_zero (table k)), regs)
    | inr (used, nz, apart, (e, found)) ↦
        let r = libcfg_free H b.handler s in
        let (ok_r, freed, absent, slots, dead) = libcfg_free_lem H b.handler s e v nz found in
        let v' = libcfg_free-IsValid H b.handler s e v nz found in
        let not_zero : (b.addr == 0) ≡ false = ground (arith, used) in
        let other : (k : ℕ) → owns bs k ≡ true → (b.handler == k) ≡ false = λ k o.
          elim (Bool-cases (b.handler == k)) [
            | inr n ↦ n
            | inl y ↦ let same : b.handler ≡ k = ground arith in absurd (cc (apart, o, same))
          ] in
        let own : AreOwned bs r.0 =
          AreOwned-same bs s r.0 (λ k o. freed k ∙ rw (other k o) refl) rest in
        let (t, done, w, table, regs) = free_blocks_lem bs r.0 v' own in
        let fine : (r.1 == minus_one) ≡ false = rw ok_r refl in
        (
          t,
          rw (not_zero, fine) done,
          w,
          (λ k. table k ∙ rw (not_zero, freed k) (ground arith)),
          λ n ne. regs n ne ∙ libcfg_free-csr H b.handler n s ne,
        )
  ]
