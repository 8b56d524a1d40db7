-- ===== src/Dmalloc.antt =====
-- `mmap_chunk` and `dasics_malloc` of src/memory/dmalloc.c: a bump allocator over chunks.
pub mod Blocks
use lib_dasics.Base.{ℕ, ◌+◌, ◌^◌, Bool, ◌||◌, Option, none, some, ltb, leb, ◌==◌, if◌then◌else◌}
use lib_dasics.Base.Maybe.{◌>>=◌}
use lib_dasics.Word.{add64, sub64}
use lib_dasics.Word.Align.{round}

-- The static variables `mmap_base` and `mmap_top`.
pub record Arena : Type 0 where
  pub mmap_base : ℕ
  pub mmap_top : ℕ

-- `CHUNK_SIZE` of include/dmalloc.h.
abbrev pub chunk_size : ℕ
chunk_size = 0x40000

-- `addr` is what `_dasics_mmap` answers; `addr <= 0` is tested on an `int64_t`,
-- and a failure ends in `while(1)`, which is `none`.
pub mmap_chunk : ℕ → Arena → Option Arena
mmap_chunk addr s =
    if addr == 0 || leb (2 ^ 63) addr
    then none
    else some (record { mmap_base = addr; mmap_top = add64 addr chunk_size })

-- `dasics_malloc`: `first` and `next` are the answers to the two calls of `mmap_chunk`.
pub malloc : ℕ → ℕ → ℕ → Arena → Option (ℕ × Arena)
malloc first next size s = do
  s1 ← if s.mmap_base == 0 then mmap_chunk first s else some s
  let rounded = round s1.mmap_base 0x16
  s2 ←
      if ltb (sub64 s1.mmap_top rounded) size
      then mmap_chunk next s1
      else some (record s1 { mmap_base = rounded })
  some (s2.mmap_base, record s2 { mmap_base = add64 s2.mmap_base size })
