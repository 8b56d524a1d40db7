-- ===== src/Plt.antt =====
-- `init_elf_plt` of src/dynamic/dynamic.c: where the PLT of a module begins, read off one of its stubs.
use lib_dasics.Base.{
  ℕ, ◌+◌, ◌-◌, ◌*◌, ◌/◌, ◌%◌, ◌^◌, ◌<◌, ◌≡◌, arith, bit_and, bit_or, ◌==◌, if◌then◌else◌, ◌∙◌, not,
}
use lib_dasics.Word.{add64, sub64}
use lib_dasics.Word.Bits.{
  bit_and-complement, bit_and_mask, bit_and_bit, bit_or-div, bit_or-mod, bit_or-zero, zero-bit_or,
}
use lib_dasics.Elf.{Elf}

-- What a stub adds to its own address: the immediate of `auipc`, which is not extended by its sign,
-- and that of `ld`, which is.
auipc_imm : ℕ → ℕ
auipc_imm auipc = bit_and auipc 0xfffff000

ld_offset : ℕ → ℕ
ld_offset ld =
    let ld_imm = bit_and ld 0xfff00000 / 2 ^ 20 in
    if not (bit_and ld_imm 0x800 == 0) then bit_or 0xfffffffffffff000 ld_imm else ld_imm

-- `init_elf_plt`; `auipc` and `ld` are the first two words at `plt_pc`.
pub init_elf_plt : ℕ → ℕ → ℕ → ℕ → Elf → Elf
init_elf_plt plt_pc auipc ld got_addr elf =
    let t3 = add64 plt_pc (auipc_imm auipc) in
    let addr = add64 t3 (ld_offset ld) in
    let begin = sub64 plt_pc (0x10 * (sub64 addr got_addr / 8) % 2 ^ 64) in
    let start = add64 begin 0x20 in
    record elf {
      plt_begin = begin;
      plt_start = start;
      plt_end = add64 start (0x10 * elf.got_num % 2 ^ 64);
    }

auipc_imm-eq : (a : ℕ) → a < 2 ^ 32 → auipc_imm a ≡ a / 2 ^ 12 * 2 ^ 12
unfolding auipc_imm
auipc_imm-eq a h = omega (arith, bit_and-complement 32 a 0xfff h (omega arith), bit_and_mask 12 a)

ld_imm-eq : (a : ℕ) → a < 2 ^ 32 → bit_and a 0xfff00000 / 2 ^ 20 ≡ a / 2 ^ 20
ld_imm-eq a h = omega (arith, bit_and-complement 32 a 0xfffff h (omega arith), bit_and_mask 20 a)

-- The high bits over 12 low ones.
sign_bits : (x : ℕ) → x < 2 ^ 12 → bit_or 0xfffffffffffff000 x ≡ 0xfffffffffffff000 + x
sign_bits x h =
    let small : x / 2 ^ 12 ≡ 0 = omega arith in
    let high : bit_or 0xfffffffffffff000 x / 2 ^ 12 ≡ 0xfffffffffffff =
      bit_or-div 12 0xfffffffffffff000 x ∙ (rw small (bit_or-zero 0xfffffffffffff)) in
    let low : bit_or 0xfffffffffffff000 x % 2 ^ 12 ≡ x % 2 ^ 12 =
      bit_or-mod 12 0xfffffffffffff000 x ∙ zero-bit_or (x % 2 ^ 12) in
    omega (arith, high, low)

ld_offset-eq :
    (ld lo : ℕ)
    → ld < 2 ^ 32
    → ld / 2 ^ 20 ≡ lo
    → ld_offset ld ≡ (if not (lo / 2 ^ 11 % 2 == 0) then 0xfffffffffffff000 + lo else lo)
unfolding ld_offset
ld_offset-eq ld lo h e = rw (ld_imm-eq ld h, e) (ground (arith, bit_and_bit 11 lo, sign_bits lo))

-- For a stub at entry `i` of the PLT, which begins at `begin`, whose `auipc` and `ld` hold the
-- distance `d` to cell `i` of the GOT in the way of the architecture, `init_elf_plt` finds
-- `begin`, and the entries from 0x20 on, 16 bytes each; for a GOT above the PLT, less than 2 GiB
-- off, addresses far below 2 ^ 63, and fewer than 2 ^ 32 entries.
pub init_elf_plt_lem :
    (begin i d got auipc ld : ℕ) (elf : Elf)
    → auipc < 2 ^ 32
    → ld < 2 ^ 32
    → begin + 0x10 * i + d ≡ got + 8 * i
    → d + 0x800 < 2 ^ 31
    → auipc / 2 ^ 12 ≡ (d + 0x800) / 2 ^ 12
    → ld / 2 ^ 20 ≡ d % 2 ^ 12
    → got + 8 * i + 2 ^ 33 < 2 ^ 63
    → elf.got_num < 2 ^ 32
    → let e = init_elf_plt (begin + 0x10 * i) auipc ld got elf in
      (e.plt_begin ≡ begin)
      × (e.plt_start ≡ begin + 0x20)
      × (e.plt_end ≡ begin + 0x20 + 0x10 * elf.got_num)
unfolding init_elf_plt
init_elf_plt_lem begin i d got auipc ld elf ha hl dist near hi lo room few =
    let pc = begin + 0x10 * i in
    let addr : add64 (add64 pc (auipc_imm auipc)) (ld_offset ld) ≡ got + 8 * i =
      ground (arith, auipc_imm-eq auipc ha, ld_offset-eq ld (d % 2 ^ 12) hl lo) in
    let found : sub64 pc
          (0x10 * (sub64 (add64 (add64 pc (auipc_imm auipc)) (ld_offset ld)) got / 8) % 2 ^ 64)
        ≡ begin =
      omega (arith, addr) in
    (found, omega (arith, found), omega (arith, found))

-- With the cell of the GOT more than 0x800 and less than 2 ^ 31 bytes below the stub, the
-- distance is negative, the immediate of `auipc` stands for a number less by 2 ^ 32 than the code
-- takes it for, and the begin that is found is 2 ^ 33 too low, modulo 2 ^ 64.
init_elf_plt-below :
    (begin i d got auipc ld : ℕ) (elf : Elf)
    → auipc < 2 ^ 32
    → ld < 2 ^ 32
    → begin + 0x10 * i ≡ got + 8 * i + d
    → 0x800 < d
    → d < 2 ^ 31
    → auipc / 2 ^ 12 ≡ (2 ^ 32 - d + 0x800) / 2 ^ 12
    → ld / 2 ^ 20 ≡ (2 ^ 32 - d) % 2 ^ 12
    → got + 8 * i + 2 ^ 33 < 2 ^ 63
    → (init_elf_plt (begin + 0x10 * i) auipc ld got elf).plt_begin ≡ sub64 begin (2 ^ 33)
unfolding init_elf_plt
init_elf_plt-below begin i d got auipc ld elf ha hl dist far near hi lo room =
    let pc = begin + 0x10 * i in
    let addr : add64 (add64 pc (auipc_imm auipc)) (ld_offset ld) ≡ got + 8 * i + 2 ^ 32 =
      ground (arith, auipc_imm-eq auipc ha, ld_offset-eq ld ((2 ^ 32 - d) % 2 ^ 12) hl lo) in
    omega (arith, addr)
