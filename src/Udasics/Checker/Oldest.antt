-- ===== src/Udasics/Checker/Oldest.antt =====
-- Which register `dasics_oldest_victim` finds.
use lib_dasics.Base.{
  ℕ, zero, suc, ◌+◌, ◌<◌, ◌≤◌, ◌≡◌, inl, inr, refl, arith, Bool-cases, true, ltb, leb,
}
use lib_dasics.Udasics.State.{Dasics}
use lib_dasics.Udasics.Checker.{aging_val, oldest_from, oldest_victim}

-- The victim has the least age so far, and none before it that is as old comes after it.
oldest_from_lem :
    (aging : ℕ → ℕ) (n left i victim oldest : ℕ)
    → i + left ≡ n
    → ((j : ℕ) → j < i → oldest ≤ aging j)
    → ((j : ℕ) → j < i → victim < j → oldest < aging j)
    → aging victim ≡ oldest
    → victim < i
    → let v = oldest_from aging left i victim oldest in
      (v < n)
      × ((j : ℕ) → j < n → aging v ≤ aging j)
      × ((j : ℕ) → j < n → v < j → aging v < aging j)
unfolding oldest_from
oldest_from_lem aging n zero i victim oldest c a b e h = (
  omega arith,
  (λ j k. omega (arith, e, a j (omega arith))),
  λ j k l. omega (arith, e, b j (omega arith) l),
)
oldest_from_lem aging n (suc left) i victim oldest c a b e h =
    elim (Bool-cases (leb (aging i) oldest)) [
      | inl y ↦
          let older : aging i ≤ oldest = ground arith in
          rw y (
            oldest_from_lem aging n left (i + 1) i (aging i) (omega arith)
              (λ j k. elim (Bool-cases (ltb j i)) [
                | inl before ↦ omega (arith, a j (ground arith))
                | inr here ↦ let eq : j ≡ i = ground arith in rw eq (omega arith)
              ])
              (λ j k l. absurd (omega arith)) refl (omega arith))
      | inr m ↦
          let younger : oldest < aging i = ground arith in
          rw m (
            oldest_from_lem aging n left (i + 1) victim oldest (omega arith)
              (λ j k. elim (Bool-cases (ltb j i)) [
                | inl before ↦ a j (ground arith)
                | inr here ↦ let eq : j ≡ i = ground arith in rw eq (omega arith)
              ])
              (λ j k l. elim (Bool-cases (ltb j i)) [
                | inl before ↦ b j (ground arith) l
                | inr here ↦ let eq : j ≡ i = ground arith in rw eq younger
              ])
              e (omega arith))
    ]

aging_val-lt : (dlaging0 dlaging1 i : ℕ) → aging_val dlaging0 dlaging1 i < 256
unfolding aging_val
aging_val-lt dlaging0 dlaging1 i = elim (Bool-cases (ltb i 8)) [
  | inl y ↦ rw y (omega arith)
  | inr n ↦ rw n (omega arith)
]

-- `dasics_oldest_victim` gives the last of the registers whose aging byte is least.
oldest_victim_lem :
    {T : Type 0} (s : Dasics T)
    → let age = aging_val (s.csr 0x881) (s.csr 0x882) in
      let v = oldest_victim s in
      (v < 16) × ((j : ℕ) → j < 16 → age v ≤ age j) × ((j : ℕ) → j < 16 → v < j → age v < age j)
unfolding oldest_victim
oldest_victim_lem s =
    let age = aging_val (s.csr 0x881) (s.csr 0x882) in
    let small = aging_val-lt (s.csr 0x881) (s.csr 0x882) 0 in
    let first : leb (age 0) 0xff ≡ true = ground arith in
    let start : oldest_from age 16 0 0 0xff ≡ oldest_from age 15 1 0 (age 0) =
      (unfold oldest_from in rw first refl) in
    rw start (
      oldest_from_lem age 16 15 1 0 (age 0) refl
        (λ j k. let eq : j ≡ 0 = omega arith in rw eq (omega arith)) (λ j k l. absurd (omega arith))
        refl (omega arith))
