-- ===== src/Funcmem/Cells.antt =====
-- The cells that record the blocks of src/memory/ufuncmem.c: how many are in use, and that their
-- number is right.
use lib_dasics.Base.{
  ℕ, zero, suc, ◌+◌, ◌≤◌, ◌<◌, ◌≡◌, ◌≢◌, refl, arith, true, false, not, ◌==◌, if◌then◌else◌, none,
  some, List, [], ◌∷◌, ◌++◌, length, get_elem?, set, replicate, length-append, length-replicate,
}
use lib_dasics.Funcmem.{Bound, unused, FuncMem, init_func_mem, expand_bound, find_addr}

pub ne_of-== : (a b : ℕ) → (a == b) ≡ false → a ≢ b
ne_of-== a b h = ground arith

unfoldable pub used : Bound → ℕ
used b = if b.addr == 0 then 0 else 1

pub used-zero : (b : Bound) → b.addr ≡ 0 → used b ≡ 0
unfolding used
used-zero b e = ground arith

pub used-pos : (b : Bound) → b.addr ≢ 0 → used b ≡ 1
unfolding used
used-pos b e = ground arith

pub not-zero : (n : ℕ) → n ≢ 0 → not (n == 0) ≡ true
not-zero n h = ground arith

unfoldable pub count_used : List Bound → ℕ
count_used [] = 0
count_used (b ∷ bs) = used b + count_used bs

-- There are as many cells as `bound_max` says, and `bound_num` of them are in use.
pub record IsFuncMem (m : FuncMem) : Type 0 where
  pub cells : length m.mem ≡ m.bound_max
  pub counted : count_used m.mem ≡ m.bound_num

pub find_addr-some :
    (a : ℕ) (bs : List Bound) (i : ℕ)
    → find_addr a bs ≡ some i
    → (b : Bound) × (get_elem? bs i ≡ some b) × (b.addr ≡ a) × (i < length bs)
unfolding find_addr
find_addr-some a [] i e = cc
find_addr-some a (b ∷ bs) zero e = (b, refl, ground arith, omega arith)
find_addr-some a (b ∷ bs) (suc i) e =
    let (c, got, here, lt) = find_addr-some a bs i (ground arith) in (c, got, here, omega arith)

pub find_addr-full : (bs : List Bound) → find_addr 0 bs ≡ none → count_used bs ≡ length bs
unfolding find_addr count_used used
find_addr-full [] e = refl
find_addr-full (b ∷ bs) e = ground (arith, find_addr-full bs)

pub count_used-set :
    (bs : List Bound) (i : ℕ) (b c : Bound)
    → get_elem? bs i ≡ some b
    → count_used (set bs i c) + used b ≡ count_used bs + used c
unfolding count_used
count_used-set [] i b c e = cc
count_used-set (x ∷ bs) zero b c e = ground (arith, e)
count_used-set (x ∷ bs) (suc i) b c e = omega (arith, count_used-set bs i b c e)

pub count_used-le-length : (bs : List Bound) → count_used bs ≤ length bs
unfolding count_used used
count_used-le-length [] = omega arith
count_used-le-length (b ∷ bs) = ground (arith, count_used-le-length bs)

count_used-append : (bs cs : List Bound) → count_used (bs ++ cs) ≡ count_used bs + count_used cs
unfolding count_used
count_used-append [] cs = omega arith
count_used-append (b ∷ bs) cs = omega (arith, count_used-append bs cs)

count_used-replicate : (n : ℕ) → count_used (replicate n unused) ≡ 0
unfolding count_used used
count_used-replicate zero = refl
count_used-replicate (suc n) = omega (arith, count_used-replicate n)

init_func_mem-IsFuncMem : (func : ℕ) → IsFuncMem (init_func_mem func)
unfolding init_func_mem
init_func_mem-IsFuncMem func = record {
  cells = length-replicate 16 unused;
  counted = count_used-replicate 16;
}

pub expand_bound-IsFuncMem : (m : FuncMem) → IsFuncMem m → IsFuncMem (expand_bound m)
unfolding expand_bound
expand_bound-IsFuncMem m v = record {
  cells = omega (
    arith,
    v.cells,
    length-append {0} m.mem (replicate 16 unused),
    length-replicate {0} 16 unused,
  );
  counted =
      omega
        (arith, v.counted, count_used-append m.mem (replicate 16 unused), count_used-replicate 16);
}
