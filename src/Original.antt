-- ===== src/Original.antt =====
-- lib/tools/original.c: the bounds without handles, over the registers alone. The text of its two
-- jump-bound functions is that of src/udasics/udasics.c, with other names.
use lib_dasics.Base.{
  ℕ, zero, suc, ◌+◌, ◌-◌, ◌%◌, ◌^◌, ◌<◌, ◌≡◌, ◌≢◌, ◌⊎◌, refl, arith, bit_and, update, ltb, leb,
  ◌==◌, ◌||◌, if◌then◌else◌, Bool-cases, inl, inr, ap, ◌∙◌,
}
use lib_dasics.Word.Bits.{bit_and_mask, bit_and_bit}
use lib_dasics.Word.Fields.{field, put_field, mask_field, field-put_field, field-mask_field}
use lib_dasics.Udasics.State.{
  Csrs, minus_one, is_negative, csr_libcfg, csr_bound_lo, csr_bound_hi, libcfg_width, cfg_v,
  libbound_write,
}
use lib_dasics.Jumpcfg.{first_idle, csr_jumpcfg, jumpcfg_width, jumpcfg_alloc, jumpcfg_free}
use lib_dasics.Jumpcfg.Laws.{first_idle_lem, Region, region, jumpcfg_free_lem, jumpcfg_free-other}

-- `original_libcfg_alloc`
pub original_libcfg_alloc : ℕ → ℕ → ℕ → Csrs → Csrs × ℕ
original_libcfg_alloc cfg lo hi csr =
    let libcfg = csr csr_libcfg in
    let idx = first_idle 4 cfg_v libcfg_width 0 libcfg in
    if ltb idx libcfg_width
    then (
      update (libbound_write hi lo idx csr) csr_libcfg (put_field 4 libcfg idx (bit_and cfg 0xf)),
      idx,
    )
    else (csr, minus_one)

-- `original_libcfg_free`
original_libcfg_free : ℕ → Csrs → Csrs × ℕ
original_libcfg_free idx csr =
    if is_negative idx || leb libcfg_width idx
    then (csr, minus_one)
    else (update csr csr_libcfg (mask_field 4 (csr csr_libcfg) idx cfg_v), 0)

-- The loop of `original_libcfg_free_all`, with `left` rounds left.
original_free_from : ℕ → ℕ → Csrs → Csrs
original_free_from zero idx csr = csr
original_free_from (suc left) idx csr =
    original_free_from left (idx + 1) (original_libcfg_free idx csr).0

pub original_libcfg_free_all : Csrs → Csrs × ℕ
original_libcfg_free_all csr = (original_free_from libcfg_width 0 csr, 0)

-- `original_libcfg_get`
pub original_libcfg_get : ℕ → Csrs → ℕ
original_libcfg_get idx csr =
    if is_negative idx || leb libcfg_width idx then minus_one else field 4 (csr csr_libcfg) idx

-- `original_jumpcfg_alloc` and `original_jumpcfg_free`: line for line those of the other file.
abbrev pub original_jumpcfg_alloc : ℕ → ℕ → Csrs → Csrs × ℕ
original_jumpcfg_alloc lo hi csr = jumpcfg_alloc lo hi csr

abbrev original_jumpcfg_free : ℕ → Csrs → Csrs × ℕ
original_jumpcfg_free idx csr = jumpcfg_free idx csr

-- The loop of `original_jumpcfg_free_all`.
original_jump_free_from : ℕ → ℕ → Csrs → Csrs
original_jump_free_from zero idx csr = csr
original_jump_free_from (suc left) idx csr =
    original_jump_free_from left (idx + 1) (original_jumpcfg_free idx csr).0

pub original_jumpcfg_free_all : Csrs → Csrs × ℕ
original_jumpcfg_free_all csr = (original_jump_free_from jumpcfg_width 0 csr, 0)

-- What `original_libcfg_get` reads after a call of `original_libcfg_alloc` is the configuration
-- that was given, at the index that the call returned, and what it read before at every other
-- index; the register of that index was not valid before and has the given bounds. With all
-- registers valid the call answers -1 and changes nothing.
pub original_libcfg_get-alloc :
    (cfg lo hi : ℕ) (csr : Csrs)
    → let r = original_libcfg_alloc cfg lo hi csr in
      ((r ≡ (csr, minus_one)) × ((i : ℕ) → i < 16 → bit_and (original_libcfg_get i csr) cfg_v ≢ 0))
      ⊎ ((r.1 < 16)
          × (bit_and (original_libcfg_get r.1 csr) cfg_v ≡ 0)
          × (r.0 (csr_bound_lo r.1) ≡ lo)
          × (r.0 (csr_bound_hi r.1) ≡ hi)
          × ((i : ℕ)
              → i < 16
              → original_libcfg_get i r.0
                ≡ (if r.1 == i then cfg % 16 else original_libcfg_get i csr)))
unfolding original_libcfg_alloc original_libcfg_get libbound_write
original_libcfg_get-alloc cfg lo hi csr =
    let c = csr csr_libcfg in
    let (a, b, idle, busy) = first_idle_lem 4 cfg_v 16 0 c in
    let idx = first_idle 4 cfg_v 16 0 c in
    let small : bit_and cfg 0xf ≡ cfg % 16 = bit_and_mask 4 cfg in
    elim (Bool-cases (ltb idx 16)) [
      | inl y ↦
          let lt : idx < 16 = ground arith in
          inr (
            rw y (
              lt,
              ground (arith, idle),
              ground arith,
              ground arith,
              λ i hi'. ground (
                arith,
                small,
                field-put_field 4 c idx i (bit_and cfg 0xf) (omega arith) (omega arith)
                    (omega arith),
              ),
            ))
      | inr n ↦ inl (rw n (refl, λ i hi'. ground (arith, busy i)))
    ]

v-masked : (f : ℕ) → bit_and (bit_and f (2 ^ 4 - 1 - cfg_v)) cfg_v ≡ 0
v-masked f = omega (arith, bit_and_bit 3 (bit_and f 7), bit_and_mask 3 f)

free_from-closed :
    (left idx : ℕ) (csr : Csrs)
    → idx + left ≡ 16
    → ((i : ℕ) → i < idx → bit_and (field 4 (csr csr_libcfg) i) cfg_v ≡ 0)
    → (i : ℕ) → i < 16
    → bit_and (field 4 (original_free_from left idx csr csr_libcfg) i) cfg_v ≡ 0
unfolding original_free_from original_libcfg_free
free_from-closed zero idx csr e h = λ i hi. h i (omega arith)
free_from-closed (suc left) idx csr e h = free_from-closed left (idx + 1) _ (omega arith) λ i hi.
    ground (
      arith,
      h i,
      field-mask_field 4 (csr csr_libcfg) idx i cfg_v (omega arith) (omega arith) (omega arith),
      v-masked (field 4 (csr csr_libcfg) i),
    )

-- After `original_libcfg_free_all`, none of the 16 configurations that `original_libcfg_get`
-- reads is valid.
pub original_libcfg_free_all_lem :
    (csr : Csrs) (i : ℕ)
    → i < 16
    → bit_and (original_libcfg_get i (original_libcfg_free_all csr).0) cfg_v ≡ 0
unfolding original_libcfg_free_all original_libcfg_get
original_libcfg_free_all_lem csr i hi =
    ground (arith, free_from-closed 16 0 csr refl (λ j hj. absurd (omega arith)) i hi)

pub original_libcfg_get-eq :
    (csr csr' : Csrs) (i : ℕ)
    → csr' csr_libcfg ≡ csr csr_libcfg
    → original_libcfg_get i csr' ≡ original_libcfg_get i csr
unfolding original_libcfg_get
original_libcfg_get-eq csr csr' i e = rw e refl

jump_free_from-closed :
    (left idx : ℕ) (csr : Csrs)
    → idx + left ≡ 4
    → ((i : ℕ) → i < idx → (region csr i).v_bit ≡ 0)
    → (i : ℕ) → i < 4
    → (region (original_jump_free_from left idx csr) i).v_bit ≡ 0
unfolding original_jump_free_from
jump_free_from-closed zero idx csr e h = λ i hi. h i (omega arith)
jump_free_from-closed (suc left) idx csr e h =
    let (done, closed, others) = (jumpcfg_free_lem csr idx).1 (omega arith) in
    let csr' = (jumpcfg_free idx csr).0 in
    jump_free_from-closed left (idx + 1) csr' (omega arith) λ i hi. elim (Bool-cases (i == idx)) [
      | inl y ↦ let same : i ≡ idx = ground arith in rw same (ap (λ (r : Region). r.v_bit) closed)
      | inr n ↦
          ap (λ (r : Region). r.v_bit) (others i (omega arith) (ground arith)) ∙ h i (ground arith)
    ]

jump_free_from-other :
    (left idx : ℕ) (csr : Csrs) (n : ℕ)
    → n ≢ csr_jumpcfg
    → original_jump_free_from left idx csr n ≡ csr n
unfolding original_jump_free_from
jump_free_from-other zero idx csr n ne = refl
jump_free_from-other (suc left) idx csr n ne =
    jump_free_from-other left (idx + 1) (jumpcfg_free idx csr).0 n ne
    ∙ jumpcfg_free-other csr idx n ne

-- After `original_jumpcfg_free_all` none of the four regions is in force, and no other register
-- has changed.
pub original_jumpcfg_free_all_lem :
    (csr : Csrs)
    → ((i : ℕ) → i < 4 → (region (original_jumpcfg_free_all csr).0 i).v_bit ≡ 0)
      × ((n : ℕ) → n ≢ csr_jumpcfg → (original_jumpcfg_free_all csr).0 n ≡ csr n)
unfolding original_jumpcfg_free_all
original_jumpcfg_free_all_lem csr = (
  jump_free_from-closed 4 0 csr refl (λ i hi. absurd (omega arith)),
  jump_free_from-other 4 0 csr,
)
