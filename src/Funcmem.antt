-- ===== src/Funcmem.antt =====
-- src/memory/ufuncmem.c: the heap blocks that a function of an untrusted library holds, each with
-- a library bound. The answers of `malloc` and `realloc` are arguments, as is `rand()`.
pub mod Cells
pub mod Laws
pub mod Realloc
pub mod FuncMan
use lib_dasics.Base.{
  ℕ, zero, suc, ◌+◌, ◌-◌, ◌*◌, ◌%◌, ◌^◌, ◌≤◌, ◌<◌, ◌≡◌, Bool, true, false, not, ◌==◌, ◌&&◌,
  if◌then◌else◌, Option, none, some, List, [], ◌∷◌, ◌++◌, length, get_elem?, set, replicate,
}
use lib_dasics.Base.Result.{Result, ok, err, Stop, ◌>>=◌, ◌>>◌, assert}
use lib_dasics.Word.{add64, sub64}
use lib_dasics.Udasics.Table.{HashTable}
use lib_dasics.Udasics.State.{Dasics, minus_one, cfg_r, cfg_w}
use lib_dasics.Elf.{Elf, is_main}
use lib_dasics.Strings.{Str, strcmp}
use lib_dasics.Udasics.Libcfg.{libcfg_alloc, libcfg_free}

-- `struct bound_table`: an address of 0 marks a free cell.
pub record Bound : Type 0 where
  pub addr : ℕ
  pub length : ℕ
  pub handler : ℕ

abbrev pub unused : Bound
unused = record { addr = 0; length = 0; handler = 0 }

-- `struct func_mem`; `mem` has `bound_max` cells.
pub record FuncMem : Type 0 where
  pub func : ℕ
  pub bound_num : ℕ
  pub bound_max : ℕ
  pub mem : List Bound

-- The fields of `struct umaincall` that are used.
pub record Context : Type 0 where
  pub ra : ℕ
  pub t1 : ℕ
  pub a0 : ℕ
  pub a1 : ℕ
  pub sp : ℕ

-- `MAX_BOUNS`
abbrev max_bounds : ℕ
max_bounds = 16

-- `init_func_mem`
unfoldable pub init_func_mem : ℕ → FuncMem
init_func_mem func = record {
  func = func;
  bound_num = 0;
  bound_max = max_bounds;
  mem = replicate max_bounds unused;
}

-- `_expan_bound`
pub expand_bound : FuncMem → FuncMem
expand_bound m = record m {
  mem = m.mem ++ replicate max_bounds unused;
  bound_max = m.bound_max + max_bounds;
}

-- The first test of `handle_lib_malloc`.
pub with_room : FuncMem → FuncMem
with_room m = if m.bound_num == m.bound_max then expand_bound m else m

-- The loops that look for the first cell with an address.
unfoldable pub find_addr : ℕ → List Bound → Option ℕ
find_addr a [] = none
find_addr a (b ∷ bs) =
    if b.addr == a then some 0 else elim (find_addr a bs) [ none ↦ none | some i ↦ some (suc i) ]

-- The cell that a loop found; its pointer stays null if it found none.
pub target : Option ℕ → List Bound → Result (ℕ × Bound)
target none bs = err Stop.null_pointer
target (some i) bs = elim (get_elem? bs i) [ none ↦ err Stop.out_of_bounds | some b ↦ ok (i, b) ]

-- `target != NULL`
pub is_found : Option ℕ → Bool
is_found none = false
is_found (some i) = true

-- "malloc", "free" and "realloc".
abbrev malloc_name : Str
malloc_name = 109 ∷ 97 ∷ 108 ∷ 108 ∷ 111 ∷ 99 ∷ []

abbrev free_name : Str
free_name = 102 ∷ 114 ∷ 101 ∷ 101 ∷ []

abbrev realloc_name : Str
realloc_name = 114 ∷ 101 ∷ 97 ∷ 108 ∷ 108 ∷ 111 ∷ 99 ∷ []

module _ (H : HashTable) where
  -- The state that the three handlers share.
  pub record State : Type 0 where
    pub context : Context
    pub mem : FuncMem
    pub dasics : Dasics H.T

  -- `handle_lib_malloc`; `block` is the answer of `malloc`.
  pub handle_lib_malloc : ℕ → ℕ → State → Result State
  handle_lib_malloc rand block s = do
    let m = with_room s.mem
    let len = s.context.a0
    assert (not (block == 0))
    (i, _) ← target (find_addr 0 m.mem) m.mem
    let r = libcfg_alloc H rand (cfg_r + cfg_w) block (add64 block len) s.dasics
    ok (record {
      context = record s.context { a0 = block };
      mem = record m {
        mem = set m.mem i (record { addr = block; length = len; handler = r.1 });
        bound_num = add64 m.bound_num 1;
      };
      dasics = r.0;
    })

  -- `handle_lib_realloc`; `block` is the answer of `realloc`.
  pub handle_lib_realloc : ℕ → ℕ → State → Result State
  handle_lib_realloc rand block s = do
    let found = find_addr s.context.a0 s.mem.mem
    let len = s.context.a1
    assert (not (block == 0))
    (i, b) ← target found s.mem.mem
    let freed = (libcfg_free H b.handler s.dasics).0
    let r = libcfg_alloc H rand (cfg_r + cfg_w) block (add64 block len) freed
    ok (record {
      context = record s.context { a0 = block };
      mem = record s.mem {
        mem = set s.mem.mem i (record { addr = block; length = len; handler = r.1 });
      };
      dasics = r.0;
    })

  -- `handle_lib_free`: here the missing cell is tested by `assert`.
  pub handle_lib_free : State → Result State
  handle_lib_free s = do
    let found = find_addr s.context.a0 s.mem.mem
    assert (is_found found)
    (i, b) ← target found s.mem.mem
    ok (record {
      context = record s.context { a0 = 0 };
      mem = record s.mem {
        mem = set s.mem.mem i (record { addr = 0; length = 0; handler = minus_one });
        bound_num = sub64 s.mem.bound_num 1;
      };
      dasics = (libcfg_free H b.handler s.dasics).0;
    })

  -- `handle_lib_mem`: `s.mem` is what `namespace_func` points to, unless that is null.
  call_lib : Elf → (State → Result State) → State → Result (State × ℕ)
  call_lib elf handle s = elim elf.namespace_func [
    | none ↦ err Stop.null_pointer
    | some p ↦ do
      t ← handle s
      ok (record t { context = record t.context { t1 = t.context.ra } }, 0)
  ]

  handle_lib_mem : ℕ → ℕ → Elf → Str → State → Result (State × ℕ)
  handle_lib_mem rand block elf name s =
      if strcmp malloc_name name == 0 && not (is_main elf)
      then call_lib elf (handle_lib_malloc rand block) s
      else if strcmp free_name name == 0 && not (is_main elf)
      then call_lib elf handle_lib_free s
      else if strcmp realloc_name name == 0 && not (is_main elf)
      then call_lib elf (handle_lib_realloc rand block) s
      else ok (s, 1)
