-- ===== src/Segments/Laws.antt =====
-- What the areas of a module cover.
use lib_dasics.Base.{
  ℕ, ◌+◌, ◌^◌, ◌<◌, ◌≤◌, ◌≡◌, inl, inr, refl, arith, Bool, true, false, ◌&&◌, not, List, [], ◌∷◌,
  ◌==◌, if◌then◌else◌, Bool-cases,
}
use lib_dasics.Segments.{
  Phdr, pt_load, has, Areas, start_of, end_of, load_map, load_text, load_read, load_write, scan_one,
  scan, cleared, fill_module_map,
}

-- A writable segment that is loaded.
abbrev is_writable : Phdr → Bool
is_writable h = (h.p_type == pt_load) && (has h 4 && has h 2)

-- The loaded segments come in the order of their addresses, from `low` on, and lie within 64 bits.
abbrev IsSorted : ℕ → ℕ → List Phdr → Type 0
IsSorted l_addr low [] = Unit
IsSorted l_addr low (h ∷ hs) =
    (h.p_vaddr + h.p_memsz + l_addr < 2 ^ 64)
    × (h.p_type ≡ pt_load → low ≤ h.p_vaddr)
    × IsSorted l_addr (if h.p_type == pt_load then h.p_vaddr + h.p_memsz else low) hs

-- The writable segment is inside the area.
abbrev Covers : ℕ → Areas → Phdr → Type 0
Covers l_addr a h = (a.w_start ≤ h.p_vaddr + l_addr) × (h.p_vaddr + h.p_memsz + l_addr ≤ a.w_end)

abbrev pub AllCovered : ℕ → Areas → List Phdr → Type 0
AllCovered l_addr a [] = Unit
AllCovered l_addr a (h ∷ hs) = (is_writable h ≡ true → Covers l_addr a h) × AllCovered l_addr a hs

-- Two states with the same writable area.
abbrev SameWrite : Areas → Areas → Type 0
SameWrite a b = (a.set_w ≡ b.set_w) × (a.w_start ≡ b.w_start) × (a.w_end ≡ b.w_end)

module _ (l_addr : ℕ) (h : Phdr) (a : Areas) where
  load_map-SameWrite : SameWrite (load_map l_addr h a) a
  unfolding load_map
  load_map-SameWrite = (ground arith, ground arith, ground arith)

  load_text-SameWrite : SameWrite (load_text l_addr h a) a
  unfolding load_text
  load_text-SameWrite = (ground arith, ground arith, ground arith)

  load_read-SameWrite : SameWrite (load_read l_addr h a) a
  unfolding load_read
  load_read-SameWrite = (ground arith, ground arith, ground arith)

  load_write-write :
      let w = has h 4 && has h 2 in
      ((load_write l_addr h a).set_w ≡ (if w then true else a.set_w))
      × ((load_write l_addr h a).w_start
          ≡ (if w && not a.set_w then start_of l_addr h else a.w_start))
      × ((load_write l_addr h a).w_end ≡ (if w then end_of l_addr h else a.w_end))
  unfolding load_write
  load_write-write = (ground arith, ground arith, ground arith)

-- One header: what becomes of the writable area.
scan_one-write :
    (l_addr : ℕ) (h : Phdr) (a : Areas)
    → ((scan_one l_addr h a).set_w ≡ (if is_writable h then true else a.set_w))
      × ((scan_one l_addr h a).w_start
          ≡ (if is_writable h && not a.set_w then start_of l_addr h else a.w_start))
      × ((scan_one l_addr h a).w_end ≡ (if is_writable h then end_of l_addr h else a.w_end))
unfolding scan_one
scan_one-write l_addr h a =
    let m = load_map l_addr h a in
    let t = load_text l_addr h m in
    let r = load_read l_addr h t in
    let (m0, m1, m2) = load_map-SameWrite l_addr h a in
    let (t0, t1, t2) = load_text-SameWrite l_addr h m in
    let (r0, r1, r2) = load_read-SameWrite l_addr h t in
    let (w0, w1, w2) = load_write-write l_addr h r in
    elim (Bool-cases (h.p_type == pt_load)) [
      | inl y ↦ rw y (
        ground (arith, w0, r0, t0, m0),
        ground (arith, w1, r1, t1, m1, r0, t0, m0),
        ground (arith, w2, r2, t2, m2),
      )
      | inr n ↦ rw n (ground arith, ground arith, ground arith)
    ]

-- Before header `h`, what was set of the writable area ends at `low`, in memory.
abbrev IsBelow : ℕ → ℕ → Areas → Type 0
IsBelow l_addr low a = a.set_w ≡ true → (a.w_start ≤ low + l_addr) × (a.w_end ≤ low + l_addr)

scan-covers :
    (l_addr low : ℕ) (hs : List Phdr) (a : Areas)
    → IsSorted l_addr low hs
    → IsBelow l_addr low a
    → let r = scan l_addr hs a in
      (a.set_w ≡ true → (r.w_start ≡ a.w_start) × (a.w_end ≤ r.w_end)) × AllCovered l_addr r hs
unfolding scan
scan-covers l_addr low [] a sorted below = ((λ e. (refl, omega arith)), tt)
scan-covers l_addr low (h ∷ hs) a (words, order, sorted) below =
    let b = scan_one l_addr h a in
    let (set, start, end) = scan_one-write l_addr h a in
    elim (Bool-cases (is_writable h)) [
      | inl y ↦
          let loaded : h.p_type ≡ pt_load = ground arith in
          let next : IsBelow l_addr (if h.p_type == pt_load then h.p_vaddr + h.p_memsz else low) b =
            λ e. (
              ground (arith, set, start, below, order loaded),
              ground (arith, set, end, below, order loaded),
            ) in
          let (kept, covered) =
            scan-covers l_addr (if h.p_type == pt_load then h.p_vaddr + h.p_memsz else low) hs b
              sorted next in
          (
            (λ e. (
              ground (arith, kept, set, start),
              ground (arith, kept, set, end, below, order loaded),
            )),
            (
              (λ w. (
                ground (arith, kept, set, start, below, order loaded),
                ground (arith, kept, set, end),
              )),
              covered,
            ),
          )
      | inr n ↦
          let next : IsBelow l_addr (if h.p_type == pt_load then h.p_vaddr + h.p_memsz else low) b =
            λ e.
              (ground (arith, set, start, below, order), ground (arith, set, end, below, order)) in
          let (kept, covered) =
            scan-covers l_addr (if h.p_type == pt_load then h.p_vaddr + h.p_memsz else low) hs b
              sorted next in
          (
            (λ e. (ground (arith, kept, set, start), ground (arith, kept, set, end))),
            ((λ w. absurd (ground arith)), covered),
          )
    ]

-- For program headers whose loaded segments come in the order of their addresses without overlap
-- and lie within 64 bits, the writable area that `_fill_module_map` finds covers each loaded
-- segment that can be read and written.
pub fill_module_map-covers :
    (l_addr : ℕ) (hs : List Phdr) (a : Areas)
    → IsSorted l_addr 0 hs
    → AllCovered l_addr (fill_module_map l_addr hs a) hs
unfolding fill_module_map cleared
fill_module_map-covers l_addr hs a sorted =
    (scan-covers l_addr 0 hs (cleared a) sorted (λ e. absurd (ground arith))).1

-- The area of the whole module is empty.
abbrev HasNoMap : Areas → Type 0
HasNoMap a = (a.set_map ≡ false) × (a.map_end ≡ a.map_start)

module _ (l_addr : ℕ) (h : Phdr) (a : Areas) (v : HasNoMap a) where
  load_map-HasNoMap : HasNoMap (load_map l_addr h a)
  unfolding load_map
  load_map-HasNoMap = (ground (arith, v), ground (arith, v))

  load_text-HasNoMap : HasNoMap (load_text l_addr h a)
  unfolding load_text
  load_text-HasNoMap = (ground (arith, v), ground (arith, v))

  load_read-HasNoMap : HasNoMap (load_read l_addr h a)
  unfolding load_read
  load_read-HasNoMap = (ground (arith, v), ground (arith, v))

  load_write-HasNoMap : HasNoMap (load_write l_addr h a)
  unfolding load_write
  load_write-HasNoMap = (ground (arith, v), ground (arith, v))

scan_one-HasNoMap :
    (l_addr : ℕ) (h : Phdr) (a : Areas) → HasNoMap a → HasNoMap (scan_one l_addr h a)
unfolding scan_one
scan_one-HasNoMap l_addr h a v = elim (Bool-cases (h.p_type == pt_load)) [
  | inl y ↦ rw y (
      load_write-HasNoMap l_addr h _ (
        load_read-HasNoMap l_addr h _
          (load_text-HasNoMap l_addr h _ (load_map-HasNoMap l_addr h a v))))
  | inr n ↦ rw n (ground (arith, v), ground (arith, v))
]

scan-HasNoMap : (l_addr : ℕ) (hs : List Phdr) (a : Areas) → HasNoMap a → HasNoMap (scan l_addr hs a)
unfolding scan
scan-HasNoMap l_addr [] a v = v
scan-HasNoMap l_addr (h ∷ hs) a v = scan-HasNoMap l_addr hs _ (scan_one-HasNoMap l_addr h a v)

-- The area of the whole module ends where it starts after `_fill_module_map`, if it did before:
-- `_set_map` is never set.
fill_module_map-no_map :
    (l_addr : ℕ) (hs : List Phdr) (a : Areas)
    → a.map_end ≡ a.map_start
    → (fill_module_map l_addr hs a).map_end ≡ (fill_module_map l_addr hs a).map_start
unfolding fill_module_map cleared
fill_module_map-no_map l_addr hs a e = (scan-HasNoMap l_addr hs (cleared a) (refl, e)).1
