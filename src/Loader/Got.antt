-- ===== src/Loader/Got.antt =====
-- `_fill_local_got` of src/dynamic/dynamic.c: every function that a module imports is resolved at
-- once, and its GOT is set so that calls pass through the trusted part.
use lib_dasics.Base.{
  ℕ, zero, suc, ◌+◌, ◌-◌, ◌*◌, ◌/◌, ◌%◌, ◌^◌, ◌<◌, ◌≤◌, ◌≡◌, ◌≢◌, ◌⊎◌, inl, inr, refl, arith, Bool,
  Bool-cases, true, false, update, ltb, ◌==◌, ==_iff, ◌∙◌, if◌then◌else◌,
}
use lib_dasics.Word.{add64}
use lib_dasics.Elf.{Elf}

-- `_dl_fixup` of the dynamic linker, behind `fixup_handler`: for a link map and the offset of a
-- relocation, the address of the function, and the GOT as it leaves it.
pub record Fixup : Type 0 where
  pub address : ℕ → ℕ → ℕ → ℕ
  pub writes : ℕ → ℕ → ℕ → (ℕ → ℕ) → ℕ → ℕ

-- `(((uint64_t)(i - 2) * 0x10UL) >> 1) * 3`
abbrev pub reloc_offset : ℕ → ℕ
reloc_offset i = (i - 2) * 0x10 / 2 * 3 % 2 ^ 64

module _ (fixup : Fixup) (start : ℕ) (is_main_elf : Bool) where
  -- One round of the loop.
  fill_cell : ℕ → Elf → Elf
  fill_cell i e =
      let ulib_func = fixup.address e.fixup_handler e.map_link (reloc_offset i) in
      let got = fixup.writes e.fixup_handler e.map_link (reloc_offset i) e.got in
      record e {
        local_got_table = update e.local_got_table i ulib_func;
        got =
            if is_main_elf
            then update got i (if ltb ulib_func start then ulib_func else e.plt_begin)
            else got;
      }

  -- The loop, with `left` rounds left.
  fill_cells : ℕ → ℕ → Elf → Elf
  fill_cells zero i e = e
  fill_cells (suc left) i e = fill_cells left (i + 1) (fill_cell i e)

  -- `_fill_local_got` of the module at `p`; `maincall` is the address of `dasics_umaincall`.
  pub fill_local_got : ℕ → ℕ → Elf → Elf
  fill_local_got maincall p e =
      let begin = e.got 3 in
      let filled = fill_cells e.got_num 2 (record e {
        plt_begin = begin;
        plt_start = add64 begin 0x20;
        plt_end = add64 (add64 begin 0x20) (0x10 * e.got_num % 2 ^ 64);
      }) in
      record filled { got = update (update filled.got 0 maincall) 1 p }

-- What is not touched.
module _ (fixup : Fixup) (start : ℕ) (is_main_elf : Bool) where
  fill_cells-same :
      (left i : ℕ) (e : Elf)
      → ((fill_cells fixup start is_main_elf left i e).flags ≡ e.flags)
        × ((fill_cells fixup start is_main_elf left i e).l_addr ≡ e.l_addr)
        × ((fill_cells fixup start is_main_elf left i e).copy_lib_elf ≡ e.copy_lib_elf)
  unfolding fill_cells fill_cell
  fill_cells-same zero i e = (refl, refl, refl)
  fill_cells-same (suc left) i e =
      fill_cells-same left (i + 1) (fill_cell fixup start is_main_elf i e)

  pub fill_local_got-same :
      (maincall p : ℕ) (e : Elf)
      → let r = fill_local_got fixup start is_main_elf maincall p e in
        (r.flags ≡ e.flags) × (r.l_addr ≡ e.l_addr) × (r.copy_lib_elf ≡ e.copy_lib_elf)
  unfolding fill_local_got
  fill_local_got-same maincall p e = fill_cells-same e.got_num 2 _

-- The linker writes no cell of the GOT but the one of the function that it resolves.
unfoldable pub OneCell : Fixup → Type 0
OneCell fixup =
    (handler link offset : ℕ) (cells : ℕ → ℕ) (j : ℕ)
    → (j < 2) ⊎ (reloc_offset j ≢ offset)
    → fixup.writes handler link offset cells j ≡ cells j

module _ (fixup : Fixup) (one : OneCell fixup) (start : ℕ) where
  -- The address that entry `j` of the module is resolved to.
  abbrev pub resolved : Elf → ℕ → ℕ
  resolved e j = fixup.address e.fixup_handler e.map_link (reloc_offset j)

  fill_cell-got :
      (i : ℕ) (e : Elf) (j : ℕ)
      → 2 ≤ i
      → i < 2 ^ 32 + 2
      → j < 2 ^ 32 + 2
      → (fill_cell fixup start true i e).got j ≡ (
          if i == j
          then (if ltb (resolved e i) start then resolved e i else e.plt_begin)
          else e.got j)
  unfolding fill_cell OneCell
  fill_cell-got i e j lo hi hj = ground (
    arith,
    λ (h : (j < 2) ⊎ (reloc_offset j ≢ reloc_offset i)).
        one e.fixup_handler e.map_link (reloc_offset i) e.got j h,
  )

  fill_cell-table :
      (i : ℕ) (e : Elf) (j : ℕ)
      → (fill_cell fixup start true i e).local_got_table j
        ≡ (if i == j then resolved e i else e.local_got_table j)
  unfolding fill_cell
  fill_cell-table i e j = refl

  -- Cell `j` as the loop leaves it.
  abbrev filled_cell : Elf → ℕ → ℕ
  filled_cell e j = if ltb (resolved e j) start then resolved e j else e.plt_begin

  fill_cells-before :
      (left i : ℕ) (e : Elf) (j : ℕ)
      → 2 ≤ i
      → i + left ≤ 2 ^ 32 + 2
      → j < i
      → ((fill_cells fixup start true left i e).local_got_table j ≡ e.local_got_table j)
        × ((fill_cells fixup start true left i e).got j ≡ e.got j)
  unfolding fill_cells
  fill_cells-before zero i e j lo hi h = (refl, refl)
  fill_cells-before (suc left) i e j lo hi h =
      let e' = fill_cell fixup start true i e in
      let rest = fill_cells-before left (i + 1) e' j (omega arith) (omega arith) (omega arith) in
      let same : (i == j) ≡ false = ground arith in
      let g : e'.got j ≡ e.got j =
        rw (fill_cell-got i e j lo (omega arith) (omega arith), same) refl in
      let t : e'.local_got_table j ≡ e.local_got_table j = rw (fill_cell-table i e j, same) refl in
      (rest.0 ∙ t, rest.1 ∙ g)

  fill_cells_lem :
      (left i : ℕ) (e : Elf) (j : ℕ)
      → 2 ≤ i
      → i + left ≤ 2 ^ 32 + 2
      → i ≤ j
      → j < i + left
      → ((fill_cells fixup start true left i e).local_got_table j ≡ resolved e j)
        × ((fill_cells fixup start true left i e).got j ≡ filled_cell e j)
  unfolding fill_cells fill_cell
  fill_cells_lem zero i e j lo hi h k = absurd (omega arith)
  fill_cells_lem (suc left) i e j lo hi h k =
      let e' = fill_cell fixup start true i e in
      elim (Bool-cases (i == j)) [
        | inl y ↦
            let eq : i ≡ j = (==_iff i j).0 y in
            let rest =
              fill_cells-before left (i + 1) e' j (omega arith) (omega arith) (omega arith) in
            let g : e'.got j ≡ filled_cell e j =
              rw (fill_cell-got i e j lo (omega arith) (omega arith), y, eq) refl in
            let t : e'.local_got_table j ≡ resolved e j = rw (fill_cell-table i e j, y, eq) refl in
            (rest.0 ∙ t, rest.1 ∙ g)
        | inr n ↦
            fill_cells_lem left (i + 1) e' j (omega arith) (omega arith) (ground arith)
              (omega arith)
      ]

  fill_cells-plt :
      (left i : ℕ) (e : Elf) → (fill_cells fixup start true left i e).plt_begin ≡ e.plt_begin
  unfolding fill_cells fill_cell
  fill_cells-plt zero i e = refl
  fill_cells-plt (suc left) i e = fill_cells-plt left (i + 1) (fill_cell fixup start true i e)

  -- If the dynamic linker writes no cell of the GOT but the one that it resolves, and there are
  -- fewer than 2 ^ 32 functions, then after `_fill_local_got` of the main module each function's
  -- entry of the local table is the resolved address. Its GOT cell is that address if it lies
  -- below `_start`, and else the start of the PLT, so that the call passes through the trusted
  -- part; cell 0 is `dasics_umaincall`, and cell 1 the module.
  pub fill_local_got_lem :
      (maincall p : ℕ) (e : Elf) (j : ℕ)
      → e.got_num < 2 ^ 32
      → 2 ≤ j
      → j < e.got_num + 2
      → let r = fill_local_got fixup start true maincall p e in
        let f = resolved e j in
        (r.local_got_table j ≡ f)
        × (r.got j ≡ (if ltb f start then f else e.got 3))
        × (r.got 0 ≡ maincall)
        × (r.got 1 ≡ p)
        × (r.plt_begin ≡ e.got 3)
  unfolding fill_local_got
  fill_local_got_lem maincall p e j few lo hi =
      let e' : Elf = record e {
        plt_begin = e.got 3;
        plt_start = add64 (e.got 3) 0x20;
        plt_end = add64 (add64 (e.got 3) 0x20) (0x10 * e.got_num % 2 ^ 64);
      } in
      let cell = fill_cells_lem e.got_num 2 e' j (omega arith) (omega arith) lo (omega arith) in
      let zero_apart : (0 == j) ≡ false = ground arith in
      let one_apart : (1 == j) ≡ false = ground arith in
      (cell.0, rw (one_apart, zero_apart) cell.1, refl, refl, fill_cells-plt e.got_num 2 e')
