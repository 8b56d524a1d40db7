-- ===== src/Udasics/Spec.antt =====
-- The library bounds of src/udasics/udasics.c without registers: a map from handles to bounds, how
-- each call changes it, and what each call returns. A memory access that the hardware refuses is a
-- call too. The results are those of the code: for a handle that is not in the map
-- `dasics_libcfg_get` returns 0, where README.md says -1.
use lib_dasics.Base.{
  ℕ, ◌+◌, ◌≡◌, ◌⊎◌, Bool, Option, none, some, List, [], ◌∷◌, bit_and, bit_or, ◌==◌, if◌then◌else◌,
}
use lib_dasics.Word.Align.{align8down, align8up}
use lib_dasics.Udasics.Table.{Entry}
use lib_dasics.Udasics.State.{minus_one, cfg_v}
use lib_dasics.Udasics.Fault.{Allows}

pub record Bounds : Type 0 where
  pub entry : ℕ → Option Entry
  pub next : ℕ

pub data Call : Type 0 where
  alloc : ℕ → ℕ → ℕ → Call
  free : ℕ → Call
  get : ℕ → Call
  access : ℕ → Bool → Call

abbrev SameEntries : Bounds → Bounds → Type 0
SameEntries b b' = (k : ℕ) → b'.entry k ≡ b.entry k

-- The bound that an allocation adds: V is set, and the range is rounded out to multiples of 8.
abbrev added : ℕ → ℕ → ℕ → Bounds → Entry
added cfg lo hi b = record {
  handle = b.next;
  priv = bit_or (bit_and cfg 0xf) cfg_v;
  lo = align8down lo;
  hi = align8up hi;
}

-- What `dasics_libcfg_get` returns for a handle that is not in the map; -1 according to README.md.
abbrev unknown_handle : ℕ
unknown_handle = 0

-- The map before and after a call, and its result; an access that is granted gives 1.
abbrev pub Meets : Call → Bounds → Bounds → ℕ → Type 0
Meets (alloc cfg lo hi) b b' r =
    (r ≡ b.next)
    × (b'.next ≡ b.next + 1)
    × ((k : ℕ) → b'.entry k ≡ (if b.next == k then some (added cfg lo hi b) else b.entry k))
Meets (free h) b b' r =
    (b'.next ≡ b.next)
    × (((e : Entry) × (b.entry h ≡ some e)
          × (r ≡ 0)
          × ((k : ℕ) → b'.entry k ≡ (if h == k then none else b.entry k)))
        ⊎ ((b.entry h ≡ none) × (r ≡ minus_one) × SameEntries b b'))
Meets (get h) b b' r =
    (b'.next ≡ b.next)
    × SameEntries b b'
    × (r ≡ elim (b.entry h) [ none ↦ unknown_handle | some e ↦ e.priv ])
Meets (access addr is_read) b b' r =
    (b'.next ≡ b.next)
    × SameEntries b b'
    × (((r ≡ 1) × ((k : ℕ) × (e : Entry) × (b.entry k ≡ some e) × Allows addr is_read e))
        ⊎ ((r ≡ 0) × ((k : ℕ) (e : Entry) → b.entry k ≡ some e → ¬ Allows addr is_read e)))

-- Calls with their results, one after the other.
abbrev pub MeetsAll : Bounds → List (Call × ℕ) → Bounds → Type 0
MeetsAll b [] b' = (b'.next ≡ b.next) × SameEntries b b'
MeetsAll b ((c, r) ∷ calls) b' = (m : Bounds) × Meets c b m r × MeetsAll m calls b'
