-- ===== src/Auxv.antt =====
-- The auxiliary vector, of include/dasics_start.h. The initial stack of the process is the list of its words
-- from `sp` up: the number of arguments, the arguments, a zero, the environment, a zero, and the
-- vector: pairs of a type and a value, with a type of 0 at the end. To run off the list is to read
-- outside the stack, which is `none`.
pub mod Ended
use lib_dasics.Base.{
  ℕ, ◌≡◌, refl, arith, Bool, true, false, ◌&&◌, Option, none, some, List, [], ◌∷◌, ◌==◌,
  if◌then◌else◌, Bool-cases, Option-cases, inl, inr,
}
use lib_dasics.Base.Maybe.{◌>>=◌}

-- What follows the first zero, changed by `f`: the loop `while (*sp) sp++`, and the step over the zero.
unfoldable pub after_zero : (List ℕ → Option (List ℕ)) → List ℕ → Option (List ℕ)
after_zero f [] = none
after_zero f (w ∷ ws) =
    let rest = after_zero f ws in
    if w == 0 then (do t ← f ws; some (w ∷ t)) else (do t ← rest; some (w ∷ t))

unfoldable pub past_zero : List ℕ → Option (List ℕ)
past_zero [] = none
past_zero (w ∷ ws) = let rest = past_zero ws in if w == 0 then some ws else rest

-- `_get_auxv`
unfoldable pub get_auxv : List ℕ → Option (List ℕ)
get_auxv [] = none
get_auxv (argc ∷ ws) = past_zero ws >>= past_zero

-- The loops of the two functions over the vector.
unfoldable pub find_entry : ℕ → List ℕ → Option ℕ
find_entry id [] = none
find_entry id (t ∷ []) = if t == 0 then some 0 else none
find_entry id (t ∷ v ∷ ws) =
    let rest = find_entry id ws in if t == 0 then some 0 else if t == id then some v else rest

unfoldable pub write_entry : ℕ → ℕ → List ℕ → Option (List ℕ)
write_entry id num [] = none
write_entry id num (t ∷ []) = if t == 0 then some (t ∷ []) else none
write_entry id num (t ∷ v ∷ ws) =
    let rest = write_entry id num ws in
    if t == 0
    then some (t ∷ v ∷ ws)
    else if t == id
    then some (t ∷ num ∷ ws)
    else (do r ← rest; some (t ∷ v ∷ r))

-- `_get_auxv_entry`
unfoldable pub get_auxv_entry : ℕ → List ℕ → Option ℕ
get_auxv_entry id stack = get_auxv stack >>= find_entry id

-- `_set_auxv_entry`, with the stack that it leaves.
unfoldable pub set_auxv_entry : ℕ → ℕ → List ℕ → Option (List ℕ)
set_auxv_entry id num [] = none
set_auxv_entry id num (argc ∷ ws) = do
  r ← after_zero (after_zero (write_entry id num)) ws
  some (argc ∷ r)

-- Does the vector have an entry of type `id`?
pub has_entry : ℕ → List ℕ → Bool
has_entry id [] = false
has_entry id (t ∷ []) = false
has_entry id (t ∷ v ∷ ws) =
    let rest = has_entry id ws in if t == 0 then false else if t == id then true else rest

-- A pair of another type is passed over.
skip_pair :
    (k id t v num : ℕ) (old new : Option ℕ) (there : Bool)
    → (t == 0) ≡ false
    → (t == id) ≡ false
    → new ≡ (if (k == id) && there then some num else old)
    → (if t == 0 then some 0 else if t == k then some v else new) ≡ (
        if (k == id) && (if t == 0 then false else if t == id then true else there)
        then some num
        else if t == 0
        then some 0
        else if t == k
        then some v
        else old)
skip_pair k id t v num old new there n f e = rw (n, f) (ground arith)

-- In the vector: the value that is written is found, if there was an entry, and no other changes.
find_entry-write_entry :
    (id num k : ℕ) (ws rs : List ℕ)
    → write_entry id num ws ≡ some rs
    → find_entry k rs ≡ (if (k == id) && has_entry id ws then some num else find_entry k ws)
unfolding write_entry find_entry has_entry
find_entry-write_entry id num k [] rs e = cc
find_entry-write_entry id num k (t ∷ []) rs e = ground (arith, e)
find_entry-write_entry id num k (t ∷ v ∷ ws) rs e = elim (Bool-cases (t == 0)) [
  | inl y ↦ let same : rs ≡ t ∷ v ∷ ws = ground (arith, e) in rw (same, y) (ground arith)
  | inr n ↦ elim (Bool-cases (t == id)) [
    | inl y ↦ let same : rs ≡ t ∷ num ∷ ws = ground (arith, e) in rw (same, n, y) (ground arith)
    | inr f ↦ elim (Option-cases (write_entry id num ws)) [
      | inl stuck ↦ absurd (ground (arith, e, stuck))
      | inr (r, done) ↦
          let same : rs ≡ t ∷ v ∷ r = ground (arith, e, done) in
          rw same (
            skip_pair k id t v num (find_entry k ws) (find_entry k r) (has_entry id ws) n f
              (find_entry-write_entry id num k ws r done))
    ]
  ]
]

-- The same after a zero.
past_zero-after_zero :
    (f : List ℕ → Option (List ℕ)) (ws rs : List ℕ)
    → after_zero f ws ≡ some rs
    → (us : List ℕ) × (ts : List ℕ) × (past_zero ws ≡ some us)
      × (f us ≡ some ts)
      × (past_zero rs ≡ some ts)
unfolding after_zero past_zero
past_zero-after_zero f [] rs e = cc
past_zero-after_zero f (w ∷ ws) rs e = elim (Bool-cases (w == 0)) [
  | inl y ↦ elim (Option-cases (f ws)) [
    | inl stuck ↦ absurd (ground (arith, e, stuck))
    | inr (ts, done) ↦
        let same : rs ≡ w ∷ ts = ground (arith, e, done) in
        (ws, ts, rw y refl, done, rw (same, y) refl)
  ]
  | inr n ↦ elim (Option-cases (after_zero f ws)) [
    | inl stuck ↦ absurd (ground (arith, e, stuck))
    | inr (r, done) ↦
        let same : rs ≡ w ∷ r = ground (arith, e, done) in
        let (us, ts, p, q, s) = past_zero-after_zero f ws r done in
        (us, ts, rw n p, q, rw (same, n) s)
  ]
]

-- If `_set_auxv_entry` stays on the stack, `_get_auxv_entry` finds afterwards, for the type that
-- was written, the value, if the vector had an entry of that type, and for every other type what
-- it found before.
pub get_auxv_entry-set_auxv_entry :
    (id num : ℕ) (stack rs : List ℕ)
    → set_auxv_entry id num stack ≡ some rs
    → (ws : List ℕ) × (get_auxv stack ≡ some ws)
      × ((k : ℕ)
          → get_auxv_entry k rs
            ≡ (if (k == id) && has_entry id ws then some num else get_auxv_entry k stack))
unfolding set_auxv_entry get_auxv_entry get_auxv
get_auxv_entry-set_auxv_entry id num [] rs e = cc
get_auxv_entry-set_auxv_entry id num (argc ∷ ws) rs e =
    elim (Option-cases (after_zero (after_zero (write_entry id num)) ws)) [
      | inl stuck ↦ absurd (ground (arith, e, stuck))
      | inr (r, done) ↦
          let same : rs ≡ argc ∷ r = ground (arith, e, done) in
          let (us, ts, args, inner, args') =
            past_zero-after_zero (after_zero (write_entry id num)) ws r done in
          let (vs, qs, env, written, env') =
            past_zero-after_zero (write_entry id num) us ts inner in
          (
            vs,
            rw (args, env) refl,
            λ k. rw (same, args', env', args, env) (find_entry-write_entry id num k vs qs written),
          )
    ]
