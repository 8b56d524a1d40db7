-- ===== src/Jumpcfg.antt =====
-- The jump bounds: `dasics_jumpcfg_alloc` and `dasics_jumpcfg_free` of src/udasics/udasics.c, and
-- their copies in lib/tools/original.c, over the registers alone.
pub mod Laws
pub mod Bounds
use lib_dasics.Base.{
  ℕ, zero, suc, ◌+◌, ◌-◌, ◌*◌, ◌^◌, ◌≡◌, Bool, true, false, ◌||◌, bit_and, update, ltb, leb, ◌==◌,
  if◌then◌else◌,
}
use lib_dasics.Word.Fields.{field, put_field, mask_field}
use lib_dasics.Udasics.State.{Csrs, minus_one, is_negative}

abbrev pub csr_jumpcfg : ℕ
csr_jumpcfg = 0x8c8

-- `DASICS_JUMPCFG_WIDTH` and `DASICS_JUMPCFG_V`; a field has 16 bits.
abbrev pub jumpcfg_width : ℕ
jumpcfg_width = 4

abbrev pub jumpcfg_v : ℕ
jumpcfg_v = 1

abbrev pub csr_jump_lo : ℕ → ℕ
csr_jump_lo idx = 0x8c0 + idx * 2

abbrev pub csr_jump_hi : ℕ → ℕ
csr_jump_hi idx = 0x8c1 + idx * 2

-- The first of the `left` fields from `idx` on, each of `k` bits, whose bit `v` is clear, or the
-- number past the last.
unfoldable pub first_idle : ℕ → ℕ → ℕ → ℕ → ℕ → ℕ
first_idle k v zero idx r = idx
first_idle k v (suc left) idx r =
    let rest = first_idle k v left (idx + 1) r in
    if bit_and (field k r idx) v == 0 then idx else rest

-- The body of the loop, at the register that it stops at.
pub open_jump : ℕ → ℕ → ℕ → Csrs → Csrs
open_jump lo hi idx csr =
    update (update (update csr (csr_jump_lo idx) lo) (csr_jump_hi idx) hi) csr_jumpcfg
      (put_field 16 (csr csr_jumpcfg) idx jumpcfg_v)

-- `dasics_jumpcfg_alloc`
unfoldable pub jumpcfg_alloc : ℕ → ℕ → Csrs → Csrs × ℕ
jumpcfg_alloc lo hi csr =
    let idx = first_idle 16 jumpcfg_v jumpcfg_width 0 (csr csr_jumpcfg) in
    if ltb idx jumpcfg_width then (open_jump lo hi idx csr, idx) else (csr, minus_one)

-- `dasics_jumpcfg_free`
pub jumpcfg_free : ℕ → Csrs → Csrs × ℕ
jumpcfg_free idx csr =
    if is_negative idx || leb jumpcfg_width idx
    then (csr, minus_one)
    else (update csr csr_jumpcfg (mask_field 16 (csr csr_jumpcfg) idx jumpcfg_v), 0)
