-- ===== src/Loader/Build/Steady.antt =====
-- What the tables of a module leave as it was: the chain, the names, and what the trust in a module comes
-- from.
use lib_dasics.Base.{
  ℕ, ◌≡◌, ◌⊎◌, inl, inr, refl, arith, Bool-cases, Option-cases, Option, none, some, [], ◌∷◌, update,
  ltb, ◌==◌, ==_iff, ◌∙◌,
}
use lib_dasics.Base.Result.{ok}
use lib_dasics.Elf.{Elf, is_main}
use lib_dasics.Strings.{strcmp}
use lib_dasics.Loader.Got.{fill_local_got-same}
use lib_dasics.Loader.Records.{LinkMap, Setup, Loaded, module_map, rela_got_num}
use lib_dasics.Loader.Build.{is_main_elf, local_got, fill_tables, with_got}

-- The trust in a module and its copy stay.
abbrev pub Same : Elf → Elf → Type 0
Same e e' = (e'.flags ≡ e.flags) × (e'.l_addr ≡ e.l_addr) × (e'.copy_lib_elf ≡ e.copy_lib_elf)

-- The module at `p` is trusted exactly if it lies below `_start`.
abbrev pub Fits : Setup → (ℕ → Elf) → ℕ → Type 0
Fits env elfs p = is_main (elfs p) ≡ ltb (elfs p).l_addr env.start

pub Fits-Same :
    (env : Setup) (elfs elfs' : ℕ → Elf) (p : ℕ)
    → Same (elfs p) (elfs' p)
    → Fits env elfs p
    → Fits env elfs' p
unfolding is_main
Fits-Same env elfs elfs' p k f = rw (k.0, k.1) f

module_map-Same : (m : LinkMap) (e : Elf) → Same e (module_map m e)
unfolding module_map
module_map-Same m e = ground arith

local_got-Same :
    (env : Setup) (p : ℕ) (s : Loaded) (q : ℕ) → Same (s.elfs q) ((local_got env p s).elfs q)
unfolding local_got
local_got-Same env p s q = elim (Bool-cases (p == q)) [
  | inl y ↦
      let eq : p ≡ q = (==_iff p q).0 y in
      rw (y, ← eq)
        (fill_local_got-same env.fixup env.start (is_main_elf p s.main_elf) env.maincall p
          (s.elfs p))
  | inr n ↦ rw n (refl, refl, refl)
]

-- A step that leaves the chain, the names, the trust in the modules and their copies.
abbrev Steady : Loaded → Loaded → Type 0
Steady s t = (t.chain ≡ s.chain) × (t.l_name ≡ s.l_name) × ((q : ℕ) → Same (s.elfs q) (t.elfs q))

pub local_got-Steady : (env : Setup) (p : ℕ) (s : Loaded) → Steady s (local_got env p s)
unfolding local_got
local_got-Steady env p s = (refl, refl, λ q. local_got-Same env p s q)

Steady-trans : (s t u : Loaded) → Steady s t → Steady t u → Steady s u
Steady-trans s t u h k = (
  k.0 ∙ h.0,
  k.1 ∙ h.1,
  λ q. ((k.2 q).0 ∙ (h.2 q).0, (k.2 q).1 ∙ (h.2 q).1, (k.2 q).2 ∙ (h.2 q).2),
)

update-Steady :
    (s : Loaded) (p : ℕ) (e : Elf) (main : Option ℕ)
    → Same (s.elfs p) e
    → Steady s (record s { elfs = update s.elfs p e; main_elf = main })
update-Steady s p e main k = (
  refl,
  refl,
  λ q. elim (Bool-cases (p == q)) [
    | inl y ↦ let eq : p ≡ q = (==_iff p q).0 y in rw (y, ← eq) k
    | inr n ↦ rw n (refl, refl, refl)
  ],
)

fill_tables-Steady :
    (env : Setup) (block : ℕ) (m : LinkMap) (count : ℕ) (s : Loaded)
    → Steady s (fill_tables env block m count s)
unfolding fill_tables
fill_tables-Steady env block m count s =
    let counted = record (s.elfs block) { got_num = count } in
    let main : Option ℕ = elim s.chain [ [] ↦ some block | p ∷ ps ↦ s.main_elf ] in
    let t = record s { elfs = update s.elfs block (module_map m counted); main_elf = main } in
    let first = update-Steady s block (module_map m counted) main (module_map-Same m counted) in
    elim (Bool-cases (strcmp (s.l_name block) env.interp_start == 0)) [
      | inl y ↦ rw y first
      | inr n ↦ rw n (Steady-trans s t (local_got env block t) first (local_got-Steady env block t))
    ]

pub with_got-Steady :
    (env : Setup) (block : ℕ) (m : LinkMap) (info : ℕ → Option ℕ) (size : ℕ) (s : Loaded)
    → (info 3 ≡ none) ⊎ (info 2 ≡ some size)
    → (t : Loaded) × (with_got env block m info s ≡ ok t) × Steady s t
unfolding with_got
with_got-Steady env block m info size s h = elim (Option-cases (info 3)) [
  | inl gone ↦ (s, rw (gone, with_got) refl, (refl, refl, λ q. (refl, refl, refl)))
  | inr (pltgot, there) ↦
      let t = record s { elfs = update s.elfs block (record (s.elfs block) { got = m.got }) } in
      let first =
        update-Steady s block (record (s.elfs block) { got = m.got }) s.main_elf
          (refl, refl, refl) in
      let sized : info 2 ≡ some size = ground arith in
      elim (Bool-cases (rela_got_num size == 0)) [
        | inl y ↦ (t, rw (there, with_got, sized, y) refl, first)
        | inr n ↦ (
          fill_tables env block m (rela_got_num size) t,
          rw (there, with_got, sized, n) refl,
          Steady-trans s t (fill_tables env block m (rela_got_num size) t) first
              (fill_tables-Steady env block m (rela_got_num size) t),
        )
      ]
]
