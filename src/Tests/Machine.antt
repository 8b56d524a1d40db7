-- ===== src/Tests/Machine.antt =====
-- The jump bounds, the bounds without handles, the chunks, the system-call table and the modules.
use lib_dasics.Base.{
  ℕ, ◌+◌, ◌%◌, ◌<◌, ◌≤◌, ◌≡◌, ◌≢◌, ◌⊎◌, arith, List, [], ◌∷◌, some, none, update, bit_and, ◌==◌,
  if◌then◌else◌,
}
use lib_dasics.Word.{add64}
use lib_dasics.Word.Align.{round}
use lib_dasics.Udasics.Table.{Entry}
use lib_dasics.Udasics.State.{Csrs, minus_one, cfg_v, csr_bound_lo, csr_bound_hi}
use lib_dasics.Udasics.Handler.{Frame}
use lib_dasics.Jumpcfg.{jumpcfg_alloc}
use lib_dasics.Jumpcfg.Laws.{IsOpen, region, jumpcfg_alloc_lem}
use lib_dasics.Original.{original_libcfg_alloc, original_libcfg_get, original_libcfg_get-alloc}
use lib_dasics.Dmalloc.{Arena, chunk_size, malloc}
use lib_dasics.Dmalloc.Blocks.{malloc_block}
use lib_dasics.Syscall.{
  Check, Table, init_syscall_check, ecall_fault, default_check, default_error_handler,
}
use lib_dasics.Syscall.Registered.{Registration, registered, last_check, ecall_fault-registered}
use lib_dasics.Elf.{Elf}
use lib_dasics.Tests.Samples.{first}

-- Region 0 and library bound 0 are in force.
abbrev registers : Csrs
registers = update (update (λ n. 0) 0x8c8 1) 0x880 0xb

jumpcfg_alloc_lem_example :
    let r = jumpcfg_alloc 0x100 0x200 registers in
    ((r ≡ (registers, minus_one)) × ((i : ℕ) → i < 4 → IsOpen registers i))
    ⊎ ((r.1 < 4)
        × (region r.0 r.1 ≡ record { v_bit = 1; lo = 0x100; hi = 0x200 })
        × ¬ IsOpen registers r.1
        × ((i : ℕ) → i < r.1 → IsOpen registers i)
        × ((i : ℕ) → i < 4 → i ≢ r.1 → region r.0 i ≡ region registers i))
jumpcfg_alloc_lem_example = jumpcfg_alloc_lem registers 0x100 0x200

original_libcfg_get-alloc_example :
    let r = original_libcfg_alloc 11 0x100 0x200 registers in
    ((r ≡ (registers, minus_one))
      × ((i : ℕ) → i < 16 → bit_and (original_libcfg_get i registers) cfg_v ≢ 0))
    ⊎ ((r.1 < 16)
        × (bit_and (original_libcfg_get r.1 registers) cfg_v ≡ 0)
        × (r.0 (csr_bound_lo r.1) ≡ 0x100)
        × (r.0 (csr_bound_hi r.1) ≡ 0x200)
        × ((i : ℕ)
            → i < 16
            → original_libcfg_get i r.0
              ≡ (if r.1 == i then 11 % 16 else original_libcfg_get i registers)))
original_libcfg_get-alloc_example = original_libcfg_get-alloc 11 0x100 0x200 registers

abbrev arena : Arena
arena = record { mmap_base = 0x10000; mmap_top = 0x50000 }

arena_inside : round arena.mmap_base 0x16 ≤ arena.mmap_top
unfolding round
arena_inside = omega arith

malloc_block_example :
    (p : ℕ) × (t : Arena) × (malloc 0 0x90000 0x200 arena ≡ some (p, t))
    × (p + 0x200 ≤ t.mmap_top)
    × (t.mmap_base ≡ p + 0x200)
    × (((arena.mmap_base ≤ p) × (t.mmap_top ≡ arena.mmap_top))
        ⊎ ((p ≡ 0x90000) × (t.mmap_top ≡ 0x90000 + chunk_size)))
malloc_block_example =
    malloc_block 0 0x90000 0x200 arena (omega arith) (omega arith) arena_inside (omega arith)
      (omega arith) (omega arith) (omega arith)

abbrev call : Frame
call = record {
  uepc = 0x4000;
  utval = 0;
  ucause = 24;
  a0 = 1;
  a1 = 0;
  a2 = 0;
  a3 = 0;
  a4 = 0;
  a5 = 0;
  a6 = 0;
  a7 = 64;
}

-- A check that notes its first argument and answers -1.
abbrev noted : Check (List Entry)
noted a0 a1 a2 a3 a4 a5 a6 a7 s = (record s { umaincall_helper = a0 }, minus_one)

-- The check of call 64 is registered, then only an error handler; call 65 and a call out of range
-- have other checks.
abbrev registrations : List (Registration (List Entry))
registrations =
    record { sysno = 64; check = some default_check; handle_error = none }
    ∷ record { sysno = 64; check = some noted; handle_error = none }
    ∷ record { sysno = 64; check = none; handle_error = some default_error_handler }
    ∷ record { sysno = 65; check = some default_check; handle_error = none }
    ∷ record { sysno = 100; check = some default_check; handle_error = none }
    ∷ []

abbrev no_checks : Table (List Entry)
no_checks k = record { check = none; handle_error = none }

ecall_fault-registered_example :
    ecall_fault 100 (registered 100 registrations (init_syscall_check 100 no_checks)) call first
    ≡ some (record call { uepc = add64 0x4000 4 }, record first { umaincall_helper = 1 }, 0)
unfolding last_check
ecall_fault-registered_example =
    ecall_fault-registered 100 no_checks registrations call first (omega arith) (omega arith)

-- A trusted module, at address 0, and a library.
abbrev pub module_at : ℕ → ℕ → Elf
module_at base flags = record {
  l_addr = base;
  copy_lib_elf = none;
  plt_begin = base + 0x1000;
  got_num = 4;
  map_link = base;
  fixup_handler = 0x700;
  got = λ i. if i == 3 then base + 0x1000 else 0;
  local_got_table = λ i. 0;
  target_elf = λ i. none;
  target_func_name = λ i. none;
  target_is_main = λ i. 0;
  redirect_switch = λ i. 0;
  namespace_func = none;
  flags = flags;
  text_start = base + 0x1000;
  text_end = base + 0x3000;
  plt_start = base + 0x1020;
  plt_end = base + 0x1060;
  r_start = base;
  r_end = base + 0x1000;
  w_start = base + 0x3000;
  w_end = base + 0x4000;
}

abbrev pub modules : ℕ → Elf
modules p = if p == 1 then module_at 0 1 else module_at 0x20000 2
