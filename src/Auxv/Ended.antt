-- ===== src/Auxv/Ended.antt =====
-- A vector with an end, which `_set_auxv_entry` writes without leaving the stack.
use lib_dasics.Base.{
  ℕ, ◌≡◌, ◌⊎◌, inl, inr, refl, arith, true, Bool-cases, Option, Option-cases, ◌≢◌, some, List, [],
  ◌∷◌, ◌==◌,
}
use lib_dasics.Auxv.{
  after_zero, past_zero, get_auxv, find_entry, write_entry, get_auxv_entry, set_auxv_entry,
  has_entry,
}

-- A type of 0 stands where a type is looked for.
abbrev IsEnded : List ℕ → Type 0
IsEnded [] = ⊥
IsEnded (t ∷ []) = t ≡ 0
IsEnded (t ∷ v ∷ ws) = (t ≡ 0) ⊎ IsEnded ws

write_entry-IsEnded :
    (id num : ℕ) (ws : List ℕ)
    → IsEnded ws
    → (rs : List ℕ) × (write_entry id num ws ≡ some rs) × IsEnded rs
unfolding write_entry
write_entry-IsEnded id num [] h = absurd h
write_entry-IsEnded id num (t ∷ []) h = (t ∷ [], rw h refl, h)
write_entry-IsEnded id num (t ∷ v ∷ ws) h = elim (Bool-cases (t == 0)) [
  | inl y ↦ (t ∷ v ∷ ws, rw y refl, inl (ground arith))
  | inr n ↦
      let rest : IsEnded ws = elim h [ inl e ↦ absurd (ground arith) | inr r ↦ r ] in
      elim (Bool-cases (t == id)) [
        | inl y ↦ (t ∷ num ∷ ws, rw (n, y) refl, inr rest)
        | inr m ↦
            let (rs, done, end) = write_entry-IsEnded id num ws rest in
            (t ∷ v ∷ rs, rw (n, m, done) refl, inr end)
      ]
]

after_zero-some :
    (f : List ℕ → Option (List ℕ)) (ws us ts : List ℕ)
    → past_zero ws ≡ some us
    → f us ≡ some ts
    → (rs : List ℕ) × (after_zero f ws ≡ some rs) × (past_zero rs ≡ some ts)
unfolding after_zero past_zero
after_zero-some f [] us ts p e = cc
after_zero-some f (w ∷ ws) us ts p e = elim (Bool-cases (w == 0)) [
  | inl y ↦ let same : ws ≡ us = ground (arith, p) in (w ∷ ts, rw (y, same, e) refl, rw y refl)
  | inr n ↦
      let (rs, done, past) = after_zero-some f ws us ts (ground (arith, p)) e in
      (w ∷ rs, rw (n, done) refl, rw n past)
]

-- The stack has a vector with an end.
pub record HasVector (stack : List ℕ) : Type 0 where
  pub vector : List ℕ
  pub found : get_auxv stack ≡ some vector
  pub ended : IsEnded vector

pub set_auxv_entry-HasVector :
    (id num : ℕ) (stack : List ℕ)
    → HasVector stack
    → (rs : List ℕ) × (set_auxv_entry id num stack ≡ some rs) × HasVector rs
unfolding set_auxv_entry get_auxv
set_auxv_entry-HasVector id num [] v = absurd (cc (v.found))
set_auxv_entry-HasVector id num (argc ∷ ws) v = elim (Option-cases (past_zero ws)) [
  | inl lost ↦ absurd (ground (arith, lost, v.found))
  | inr (us, args) ↦
      let env : past_zero us ≡ some v.vector = (rw args at v.found) in
      let (ts, written, end) = write_entry-IsEnded id num v.vector v.ended in
      let (qs, inner, past) = after_zero-some (write_entry id num) us v.vector ts env written in
      let (rs, outer, past') =
        after_zero-some (after_zero (write_entry id num)) ws us qs args inner in
      (argc ∷ rs, rw outer refl, record { vector = ts; found = rw past' past; ended = end })
]

find_entry-some : (id : ℕ) (ws : List ℕ) → IsEnded ws → (v : ℕ) × (find_entry id ws ≡ some v)
unfolding find_entry
find_entry-some id [] h = absurd h
find_entry-some id (t ∷ []) h = (0, rw h refl)
find_entry-some id (t ∷ v ∷ ws) h = elim (Bool-cases (t == 0)) [
  | inl y ↦ (0, rw y refl)
  | inr n ↦
      let rest : IsEnded ws = elim h [ inl e ↦ absurd (ground arith) | inr r ↦ r ] in
      let (u, found) = find_entry-some id ws rest in
      elim (Bool-cases (t == id)) [ inl y ↦ (v, rw (n, y) refl) | inr m ↦ (u, rw (n, m) found) ]
]

get_auxv_entry-HasVector :
    (id : ℕ) (stack : List ℕ) → HasVector stack → (v : ℕ) × (get_auxv_entry id stack ≡ some v)
unfolding get_auxv_entry
get_auxv_entry-HasVector id stack h =
    let (v, found) = find_entry-some id h.vector h.ended in (v, rw h.found found)

-- A value other than 0 stands in the vector.
find_entry-has_entry :
    (id v : ℕ) (ws : List ℕ) → find_entry id ws ≡ some v → v ≢ 0 → has_entry id ws ≡ true
unfolding find_entry has_entry
find_entry-has_entry id v [] e nz = cc
find_entry-has_entry id v (t ∷ []) e nz = absurd (ground arith)
find_entry-has_entry id v (t ∷ u ∷ ws) e nz = ground (arith, find_entry-has_entry id v ws)

pub has_entry_of-get_auxv_entry :
    (id v : ℕ) (stack ws : List ℕ)
    → get_auxv_entry id stack ≡ some v
    → v ≢ 0
    → get_auxv stack ≡ some ws
    → has_entry id ws ≡ true
unfolding get_auxv_entry
has_entry_of-get_auxv_entry id v stack ws e nz f = find_entry-has_entry id v ws (rw f at e) nz
