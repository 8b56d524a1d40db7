-- ===== src/Dmalloc/Blocks.antt =====
-- Where the blocks of `dasics_malloc` lie.
use lib_dasics.Base.{
  ℕ, ◌+◌, ◌*◌, ◌%◌, ◌^◌, ◌≤◌, ◌<◌, bit_and, ◌≡◌, ◌≢◌, ◌⊎◌, refl, arith, some, inl, inr, Bool-cases,
  ltb,
}
use lib_dasics.Word.Bits.{bit_and-complement, bit_and-le_right, bit_and-mod}
use lib_dasics.Word.{add64, sub64}
use lib_dasics.Word.Align.{round}
use lib_dasics.Dmalloc.{Arena, chunk_size, mmap_chunk, malloc}

-- `ROUND(a, 0x16)` takes off the bits of 0x15 from `a + 0x15`.
round-0x16-eq : (a : ℕ) → a + 0x15 < 2 ^ 64 → round a 0x16 + bit_and (a + 0x15) 0x15 ≡ a + 0x15
unfolding round
round-0x16-eq a h =
    let e : sub64 (add64 a 0x16) 1 ≡ a + 0x15 = omega arith in
    rw e (bit_and-complement 64 (a + 0x15) 0x15 h (omega arith))

round-0x16_bounds : (a : ℕ) → a + 0x15 < 2 ^ 64 → (a ≤ round a 0x16) × (round a 0x16 ≤ a + 0x15)
round-0x16_bounds a h =
    omega (arith, round-0x16-eq a h, bit_and-le_right 0x15 (a + 0x15) 0x15 (omega arith))

-- 0x16 is no power of two, and `ROUND` by it is to no alignment: it leaves an address that is 2
-- more than a multiple of 32 as it is, where adding 0x15 to it does not wrap.
round-0x16_unaligned : (q : ℕ) → q * 32 + 2 + 0x15 < 2 ^ 64 → round (q * 32 + 2) 0x16 ≡ q * 32 + 2
round-0x16_unaligned q h =
    let y = q * 32 + 2 + 0x15 in
    let r : bit_and y 0x15 % 32 ≡ bit_and (y % 32) 0x15 = bit_and-mod 5 y 0x15 in
    let m : y % 32 ≡ 23 = omega arith in
    let c : bit_and (y % 32) 0x15 ≡ 0x15 = rw m in
    omega (arith, round-0x16-eq (q * 32 + 2) h, bit_and-le_right 0x15 y 0x15 (omega arith), r, c)

-- With a chunk below 2 ^ 63 whose rounded base does not pass its top, a size that fits a chunk,
-- and a next chunk that the system would give below 2 ^ 63, the block lies below the top of the
-- chunk that it is cut from, at or above the old base or at the start of the new chunk, and the
-- base afterwards is its end.
pub malloc_block :
    (first next size : ℕ) (s : Arena)
    → s.mmap_base ≢ 0
    → s.mmap_base + 0x15 < 2 ^ 64
    → round s.mmap_base 0x16 ≤ s.mmap_top
    → s.mmap_top < 2 ^ 63
    → size ≤ chunk_size
    → 0 < next
    → next + chunk_size < 2 ^ 63
    → (p : ℕ) × (t : Arena) × (malloc first next size s ≡ some (p, t))
      × (p + size ≤ t.mmap_top)
      × (t.mmap_base ≡ p + size)
      × (((s.mmap_base ≤ p) × (t.mmap_top ≡ s.mmap_top))
          ⊎ ((p ≡ next) × (t.mmap_top ≡ next + chunk_size)))
unfolding malloc mmap_chunk
malloc_block first next size s nz low inside top fits np nt =
    elim (Bool-cases (ltb (sub64 s.mmap_top (round s.mmap_base 0x16)) size)) [
      | inl y ↦ (
        next,
        record { mmap_base = add64 next size; mmap_top = add64 next chunk_size },
        ground arith,
        omega arith,
        omega arith,
        inr (refl, omega arith),
      )
      | inr n ↦ (
        round s.mmap_base 0x16,
        record s { mmap_base = add64 (round s.mmap_base 0x16) size },
        ground arith,
        ground arith,
        ground arith,
        inl (ground (arith, round-0x16_bounds s.mmap_base low), refl),
      )
    ]

-- Where rounding the base passes the top of the chunk, a size that fits a chunk gets no new
-- chunk: the block starts at the rounded base, and the top is as it was.
malloc_past_top :
    (first next size : ℕ) (s : Arena)
    → s.mmap_base ≢ 0
    → s.mmap_base + 0x15 < 2 ^ 64
    → s.mmap_base ≤ s.mmap_top
    → s.mmap_top < round s.mmap_base 0x16
    → size ≤ chunk_size
    → (t : Arena) × (malloc first next size s ≡ some (round s.mmap_base 0x16, t))
      × (t.mmap_top ≡ s.mmap_top)
unfolding malloc mmap_chunk
malloc_past_top first next size s nz low le past fits = (
  record s { mmap_base = add64 (round s.mmap_base 0x16) size },
  ground (arith, round-0x16_bounds s.mmap_base low),
  refl,
)
