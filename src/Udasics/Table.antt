-- ===== src/Udasics/Table.antt =====
-- The bounds table: `hashed_bound_t` of src/udasics/udasics.c, and what the code relies on of the
-- macros of uthash (include/uthash.h, a copy of another project's library): a table of entries
-- with distinct handles that is walked in the order of insertion.
use lib_dasics.Base.{
  ℕ, ◌≡◌, refl, arith, Option, none, some, List, [], ◌∷◌, ◌++◌, ◌==◌, if◌then◌else◌, Bool-cases,
  inl, inr, ◌∙◌,
}

-- `hashed_bound_t`: the handle is the key; `priv` holds the permission bits.
pub record Entry : Type 0 where
  pub handle : ℕ
  pub priv : ℕ
  pub lo : ℕ
  pub hi : ℕ

unfoldable pub find_handle : ℕ → List Entry → Option Entry
find_handle k [] = none
find_handle k (e ∷ es) = if e.handle == k then some e else find_handle k es

unfoldable pub remove_handle : ℕ → List Entry → List Entry
remove_handle k [] = []
remove_handle k (e ∷ es) = if e.handle == k then es else e ∷ remove_handle k es

-- No two entries have one handle.
abbrev pub Distinct : List Entry → Type 0
Distinct [] = Unit
Distinct (e ∷ es) = (find_handle e.handle es ≡ none) × Distinct es

-- `HASH_ADD_INT`, `HASH_FIND_INT`, `HASH_DEL` and the walk of `HASH_ITER`. The documentation asks
-- of the user that no key is added twice; the laws are those for such tables.
pub record HashTable : Type 1 where
  pub T : Type 0
  pub empty : T
  pub add : Entry → T → T
  pub find : ℕ → T → Option Entry
  pub del : ℕ → T → T
  pub iter : T → List Entry
  pub iter-empty : iter empty ≡ []
  pub iter-add : (e : Entry) (t : T) → find e.handle t ≡ none → iter (add e t) ≡ iter t ++ e ∷ []
  pub find-iter : (k : ℕ) (t : T) → Distinct (iter t) → find k t ≡ find_handle k (iter t)
  pub iter-del : (k : ℕ) (t : T) → Distinct (iter t) → iter (del k t) ≡ remove_handle k (iter t)

find_handle-append_one :
    (k : ℕ) (es : List Entry) (e : Entry)
    → find_handle e.handle es ≡ none
    → find_handle k (es ++ e ∷ []) ≡ (if e.handle == k then some e else find_handle k es)
unfolding find_handle
find_handle-append_one k [] e h = refl
find_handle-append_one k (x ∷ es) e h = ground (arith, find_handle-append_one k es e)

Distinct-append_one :
    (es : List Entry) (e : Entry)
    → Distinct es
    → find_handle e.handle es ≡ none
    → Distinct (es ++ e ∷ [])
unfolding find_handle
Distinct-append_one [] e d h = (refl, tt)
Distinct-append_one (x ∷ es) e d h = (
  ground (arith, find_handle-append_one x.handle es e),
  Distinct-append_one es e d.1 (ground arith),
)

find_handle-handle :
    (k : ℕ) (es : List Entry) {e : Entry} → find_handle k es ≡ some e → e.handle ≡ k
unfolding find_handle
find_handle-handle k [] h = cc
find_handle-handle k (x ∷ es) {e} h = ground (arith, find_handle-handle k es {e = e})

pub find_handle-remove_handle :
    (k j : ℕ) (es : List Entry)
    → Distinct es
    → find_handle j (remove_handle k es) ≡ (if k == j then none else find_handle j es)
unfolding find_handle remove_handle
find_handle-remove_handle k j [] d = ground arith
find_handle-remove_handle k j (x ∷ es) d = ground (arith, find_handle-remove_handle k j es d.1)

Distinct-remove_handle : (k : ℕ) (es : List Entry) → Distinct es → Distinct (remove_handle k es)
unfolding remove_handle
Distinct-remove_handle k [] d = tt
Distinct-remove_handle k (x ∷ es) d = elim (Bool-cases (x.handle == k)) [
  | inl e ↦ rw e d.1
  | inr e ↦
      rw e (
        ground (arith, find_handle-remove_handle k x.handle es d.1),
        Distinct-remove_handle k es d.1,
      )
]

-- Association lists are such tables.
abbrev pub list_table : HashTable
list_table = record {
  T = List Entry;
  empty = [];
  add = λ e t. t ++ e ∷ [];
  find = find_handle;
  del = remove_handle;
  iter = λ t. t;
  iter-empty = refl;
  iter-add = λ e t h. refl;
  find-iter = λ k t d. refl;
  iter-del = λ k t d. refl;
}

-- The laws, as seen through the walk.
module _ (H : HashTable) (t : H.T) (d : Distinct (H.iter t)) where
  module _ (e : Entry) (new : find_handle e.handle (H.iter t) ≡ none) where
    iter-add_new : H.iter (H.add e t) ≡ H.iter t ++ e ∷ []
    iter-add_new = H.iter-add e t (H.find-iter e.handle t d ∙ new)

    pub find_handle-add :
        (k : ℕ)
        → find_handle k (H.iter (H.add e t))
          ≡ (if e.handle == k then some e else find_handle k (H.iter t))
    find_handle-add k = rw iter-add_new (find_handle-append_one k (H.iter t) e new)

    pub Distinct-add : Distinct (H.iter (H.add e t))
    Distinct-add = rw iter-add_new (Distinct-append_one (H.iter t) e d new)

  pub find_handle-del :
      (h k : ℕ)
      → find_handle k (H.iter (H.del h t)) ≡ (if h == k then none else find_handle k (H.iter t))
  find_handle-del h k = rw (H.iter-del h t d) (find_handle-remove_handle h k (H.iter t) d)

  pub Distinct-del : (h : ℕ) → Distinct (H.iter (H.del h t))
  Distinct-del h = rw (H.iter-del h t d) (Distinct-remove_handle h (H.iter t) d)
