-- ===== src/Cross.antt =====
-- src/maincall/cross.c and src/maincall/umaincall.c: calls from one module into an untrusted one,
-- and the stack that keeps, for each, what to give back at the return.
mod Release
pub mod Call
pub mod RoundTrip
pub mod Dynamic
pub mod Blocks
pub mod Laws
use lib_dasics.Base.{
  ℕ, zero, suc, ◌+◌, ◌-◌, ◌*◌, ◌%◌, ◌^◌, ◌<◌, Bool, true, false, ◌&&◌, ◌||◌, not, Option, none,
  some, List, [], ◌∷◌, update, ltb, leb, ◌==◌, if◌then◌else◌, bit_or, get_elem?,
}
use lib_dasics.Base.Result.{Result, ok, err, Stop, ◌>>=◌, ◌>>◌, assert}
use lib_dasics.Word.{add64, sub64}
use lib_dasics.Udasics.Table.{HashTable}
use lib_dasics.Udasics.State.{Dasics, minus_one, cfg_v, cfg_r, cfg_w}
use lib_dasics.Udasics.Libcfg.{libcfg_alloc, libcfg_free}
use lib_dasics.Jumpcfg.{jumpcfg_alloc, jumpcfg_free, jumpcfg_width}
use lib_dasics.Funcmem.{Bound, FuncMem, Context}
use lib_dasics.Elf.{Elf, is_main}

-- `struct cross`; its arrays are functions.
pub record Cross : Type 0 where
  pub begin : ℕ
  pub target : ℕ
  pub func : Option ℕ
  pub ra : ℕ
  pub handle_num : ℕ
  pub jmpcfg : ℕ → ℕ
  pub handle : ℕ → ℕ

-- `sizeof(struct cross)`, and the size that `init_cross_stack` asks for.
abbrev pub sizeof_cross : ℕ
sizeof_cross = 120

abbrev pub malloc_size : ℕ
malloc_size = (sizeof_cross + 4 * 16) * 4096

-- `cross_stack_base` and `cross_stack`, and the records by their addresses.
pub record CrossStack : Type 0 where
  pub base : ℕ
  pub top : ℕ
  pub cells : ℕ → Cross

-- `init_cross_stack`; `block` is the answer of `malloc`, whose failure is only printed.
pub init_cross_stack : ℕ → CrossStack → CrossStack
init_cross_stack block s = record s { base = block; top = add64 block malloc_size }

-- `push_cross`: without room it prints, and writes outside the stack.
pub push_cross : Cross → CrossStack → Result CrossStack
push_cross c s =
    let top = sub64 s.top sizeof_cross in
    if ltb (sub64 s.top s.base) sizeof_cross
    then err Stop.out_of_bounds
    else ok (record s { top = top; cells = update s.cells top c })

-- The record that `pop_cross` reads; with an empty stack it reads past the end.
pub top_cross : CrossStack → Result Cross
top_cross s =
    if ltb (s.base + malloc_size) (s.top + sizeof_cross)
    then err Stop.out_of_bounds
    else ok (s.cells s.top)

module _ (H : HashTable) where
  -- What the calls work on: the bounds, the modules, the blocks of their functions and the stack.
  pub record Process : Type 0 where
    pub context : Context
    pub dasics : Dasics H.T
    pub elfs : ℕ → Elf
    pub mems : ℕ → FuncMem
    pub stack : CrossStack

  -- The arguments of `cross_call` to the allocators, in their order; `rand` is by the call.
  pub call_bounds : (ℕ → ℕ) → Elf → Context → Dasics H.T → Dasics H.T × (ℕ → ℕ)
  call_bounds rand target context s =
      let a = libcfg_alloc H (rand 0) (bit_or cfg_r cfg_v) target.r_start target.r_end s in
      let b =
        libcfg_alloc H (rand 1) (bit_or (bit_or cfg_r cfg_w) cfg_v) target.w_start target.w_end
          a.0 in
      let sp = sub64 context.sp 0x10000 in
      let c = libcfg_alloc H (rand 2) (bit_or cfg_r cfg_w) sp (add64 sp 0x10000) b.0 in
      (c.0, update (update (update (λ i. 0) 0 a.1) 1 b.1) 2 c.1)

  -- `cross_call`; `maincall` is the address of `dasics_umaincall`.
  pub cross_call : (ℕ → ℕ) → ℕ → ℕ → ℕ → Process → Result Process
  cross_call rand maincall entry target p =
      let elf = p.elfs target in
      if not (entry == target) && not (is_main elf)
      then (do
        let j = jumpcfg_alloc elf.plt_start elf.text_end p.dasics.csr
        let r = call_bounds rand elf p.context (record p.dasics { csr = j.0 })
        stack ←
            push_cross
              (record {
                begin = entry;
                target = target;
                func = elf.namespace_func;
                ra = p.context.ra;
                handle_num = 3;
                jmpcfg = update (λ i. 0) 0 j.1;
                handle = r.1;
              })
              p.stack
        ok (record p { context = record p.context { ra = maincall }; dasics = r.0; stack = stack }))
      else ok p

  -- The first loop of `pop_cross`, with `left` handles left.
  pub free_handles : (ℕ → ℕ) → ℕ → ℕ → Dasics H.T → Result (Dasics H.T)
  free_handles handle zero i s = ok s
  free_handles handle (suc left) i s =
      if handle i == 0 then free_handles handle left (i + 1) s else (do
        let r = libcfg_free H (handle i) s
        assert (r.1 == 0)
        free_handles handle left (i + 1) r.0)

  -- Its second loop.
  pub free_jumps : (ℕ → ℕ) → ℕ → ℕ → Dasics H.T → Result (Dasics H.T)
  free_jumps jmpcfg zero i s = ok s
  free_jumps jmpcfg (suc left) i s = if jmpcfg i == 0 then free_jumps jmpcfg left (i + 1) s else (do
    let r = jumpcfg_free (jmpcfg i) s.csr
    assert (r.1 == 0)
    free_jumps jmpcfg left (i + 1) (record s { csr = r.0 }))

  -- Its last loop, over the cells of the blocks.
  pub free_blocks : List Bound → Dasics H.T → Result (Dasics H.T)
  free_blocks [] s = ok s
  free_blocks (b ∷ bs) s = if b.addr == 0 then free_blocks bs s else (do
    let r = libcfg_free H b.handler s
    assert (not (r.1 == minus_one))
    free_blocks bs r.0)

  -- The test around it.
  pub free_memory : Elf → (ℕ → FuncMem) → Dasics H.T → Result (Dasics H.T)
  free_memory target mems s =
      if is_main target
      then ok s
      else elim target.namespace_func [ none ↦ ok s | some m ↦ free_blocks (mems m).mem s ]

  -- `pop_cross`
  pub pop_cross : Process → Result Process
  pop_cross p = do
    c ← top_cross p.stack
    d1 ← free_handles c.handle c.handle_num 0 p.dasics
    d2 ← free_jumps c.jmpcfg jumpcfg_width 0 d1
    d3 ← free_memory (p.elfs c.target) p.mems d2
    ok (record p {
      context = record p.context { ra = c.ra };
      dasics = d3;
      stack = record p.stack { top = add64 p.stack.top sizeof_cross };
    })

  -- `dasics_dynamic_call`; `redirect` is the switch, and a copy that is missing is a null pointer.
  pub dynamic_call : (ℕ → ℕ) → ℕ → Bool → ℕ → ℕ → ℕ → ℕ → Process → Result Process
  dynamic_call rand maincall redirect elf idx target target_elf p = do
    assert (not ((p.elfs elf).plt_begin == 0))
    (to, to_elf) ←
        if not ((p.elfs elf).redirect_switch (idx + 2) == 0) && redirect
        then elim (p.elfs target_elf).copy_lib_elf [
          | none ↦ err Stop.null_pointer
          | some copy ↦
              ok (add64 (sub64 target (p.elfs target_elf).l_addr) (p.elfs copy).l_addr, copy)
        ]
        else ok (target, target_elf)
    cross_call rand maincall elf to_elf (record p { context = record p.context { t1 = to } })

  -- `dasics_dynamic_return`
  pub dynamic_return : Process → Result Process
  dynamic_return p = do
    q ← pop_cross p
    ok (record q { context = record q.context { t1 = q.context.ra } })
