-- ===== src/Udasics/Slots.antt =====
-- What the 16 library-bound registers hold, and how a write to one of them changes that.
use lib_dasics.Base.{
  ℕ, ◌^◌, ◌<◌, ◌≡◌, ◌≢◌, arith, bit_and, update, ◌==◌, if◌then◌else◌, ap, sym, ◌∙◌,
}
use lib_dasics.Word.Fields.{put_field, mask_field, field-put_field, field-mask_field, put_field-lt}
use lib_dasics.Word.Bits.{bit_and_mask, bit_and_bit}
use lib_dasics.Udasics.Table.{Entry}
use lib_dasics.Udasics.State.{
  Dasics, minus_one, csr_libcfg, csr_bound_lo, csr_bound_hi, cfg_v, cfg_at, libbound_write,
  load_slot,
}

-- The entry that register `i` stands for, valid or not.
unfoldable pub slot_entry : {T : Type 0} → Dasics T → ℕ → Entry
slot_entry s i = record {
  handle = s.handle_map i;
  priv = cfg_at (s.csr csr_libcfg) i;
  lo = s.csr (csr_bound_lo i);
  hi = s.csr (csr_bound_hi i);
}

abbrev pub IsLive : {T : Type 0} → Dasics T → ℕ → Type 0
IsLive s i = bit_and (cfg_at (s.csr csr_libcfg) i) cfg_v ≢ 0

-- A register is live if the entry that it stands for has V.
pub priv-IsLive :
    {T : Type 0} (s : Dasics T) (i : ℕ) (e : Entry)
    → slot_entry s i ≡ e
    → bit_and e.priv cfg_v ≢ 0
    → IsLive s i
unfolding slot_entry
priv-IsLive s i e same live dead = live (ap (λ (x : Entry). bit_and x.priv cfg_v) (sym same) ∙ dead)

pub IsLive-eq :
    {T : Type 0} (s t : Dasics T) (i : ℕ)
    → slot_entry t i ≡ slot_entry s i
    → IsLive t i
    → IsLive s i
unfolding slot_entry
IsLive-eq s t i same live = priv-IsLive s i (slot_entry t i) (sym same) live

module _ {T : Type 0} (s : Dasics T) where
  cfg_at-put :
      (r i j p : ℕ)
      → i < 16
      → j < 16
      → p < 16
      → cfg_at (put_field 4 r i p) j ≡ (if i == j then p else cfg_at r j)
  unfolding cfg_at
  cfg_at-put r i j p hi hj hp = field-put_field 4 r i j p (omega arith) (omega arith) (omega arith)

  cfg_at-mask :
      (r i j : ℕ)
      → i < 16
      → j < 16
      → cfg_at (mask_field 4 r i cfg_v) j ≡ (if i == j then bit_and (cfg_at r j) 7 else cfg_at r j)
  unfolding cfg_at
  cfg_at-mask r i j hi hj = field-mask_field 4 r i j cfg_v (omega arith) (omega arith) (omega arith)

  -- Loading an entry changes one register.
  pub slot_entry-load_slot :
      (e : Entry) (v i : ℕ)
      → v < 16
      → i < 16
      → e.priv < 16
      → slot_entry (load_slot (s.csr csr_libcfg) e v s) i ≡ (if v == i then e else slot_entry s i)
  unfolding slot_entry load_slot libbound_write
  slot_entry-load_slot e v i hv hi hp =
      ground (arith, cfg_at-put (s.csr csr_libcfg) v i e.priv hv hi hp)

  pub load_slot-word :
      (e : Entry) (v : ℕ)
      → s.csr csr_libcfg < 2 ^ 64
      → (load_slot (s.csr csr_libcfg) e v s).csr csr_libcfg < 2 ^ 64
  unfolding load_slot
  load_slot-word e v h = put_field-lt 4 (s.csr csr_libcfg) v e.priv h

  -- Clearing the valid bit of a register, and forgetting its handle.
  unfoldable pub clear_slot : ℕ → Dasics T
  clear_slot i = record s {
    csr = update s.csr csr_libcfg (mask_field 4 (s.csr csr_libcfg) i cfg_v);
    handle_map = update s.handle_map i minus_one;
  }

  pub slot_entry-clear_slot_ne :
      (v i : ℕ) → v < 16 → i < 16 → v ≢ i → slot_entry (clear_slot v) i ≡ slot_entry s i
  unfolding slot_entry clear_slot
  slot_entry-clear_slot_ne v i hv hi ne = ground (arith, cfg_at-mask (s.csr csr_libcfg) v i hv hi)

  pub clear_slot-dead : (v : ℕ) → v < 16 → ¬ IsLive (clear_slot v) v
  unfolding clear_slot
  clear_slot-dead v hv live =
      let r = s.csr csr_libcfg in
      live (
        ground (
          arith,
          cfg_at-mask r v v hv hv,
          bit_and_mask 3 (cfg_at r v),
          bit_and_bit 3 (bit_and (cfg_at r v) 7),
        ))
