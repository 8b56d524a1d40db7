-- ===== src/Udasics/State.antt =====
-- The state of src/udasics/udasics.c: the DASICS registers of include/ucsr.h, the bounds table,
-- the next handle and the map from register numbers to handles. An `int` is its bit pattern,
-- a number below 2 ^ 32; -1 is `minus_one`.
use lib_dasics.Base.{ℕ, ◌+◌, ◌-◌, ◌*◌, ◌^◌, Bool, update, ltb, leb, if◌then◌else◌}
use lib_dasics.Word.Fields.{field, put_field}
use lib_dasics.Udasics.Table.{Entry}

abbrev pub minus_one : ℕ
minus_one = 2 ^ 32 - 1

-- `h < 0` on an `int`.
abbrev pub is_negative : ℕ → Bool
is_negative h = leb (2 ^ 31) h

-- Register numbers (`CSR_DLCFG`, `CSR_DLBOUND0LO` and so on).
abbrev pub csr_libcfg : ℕ
csr_libcfg = 0x880

abbrev pub csr_bound_lo : ℕ → ℕ
csr_bound_lo idx = 0x890 + idx * 2

abbrev pub csr_bound_hi : ℕ → ℕ
csr_bound_hi idx = 0x891 + idx * 2

abbrev pub libcfg_width : ℕ
libcfg_width = 16

-- `DASICS_LIBCFG_V`, `_R` and `_W`.
abbrev pub cfg_v : ℕ
cfg_v = 8

abbrev pub cfg_r : ℕ
cfg_r = 2

abbrev pub cfg_w : ℕ
cfg_w = 1

-- `csr_read` and `csr_write`: a register holds what was last written to it.
abbrev pub Csrs : Type 0
Csrs = ℕ → ℕ

pub record Dasics (T : Type 0) : Type 0 where
  pub csr : Csrs
  pub bounds_table : T
  pub available_handle : ℕ
  pub handle_map : ℕ → ℕ
  pub umaincall_helper : ℕ

-- `(libcfg >> (idx * step)) & DASICS_LIBCFG_MASK` with a step of 4.
unfoldable pub cfg_at : ℕ → ℕ → ℕ
cfg_at libcfg idx = field 4 libcfg idx

-- `LIBBOUND_LOOKUP(hi, lo, idx, WRITE)`: out of range it only prints.
unfoldable pub libbound_write : ℕ → ℕ → ℕ → Csrs → Csrs
libbound_write hi lo idx csr =
    if ltb idx libcfg_width
    then update (update csr (csr_bound_lo idx) lo) (csr_bound_hi idx) hi
    else csr

-- The writes that put an entry into register `victim`, over the config word read before.
unfoldable pub load_slot : {T : Type 0} → ℕ → Entry → ℕ → Dasics T → Dasics T
load_slot libcfg e victim s = record s {
  csr =
      update (libbound_write e.hi e.lo victim s.csr) csr_libcfg (put_field 4 libcfg victim e.priv);
  handle_map = update s.handle_map victim e.handle;
}
