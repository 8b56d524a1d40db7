-- ===== src/Strings.antt =====
-- `dasics_strcmp` of include/dasics_string.h. A string is the list of its bytes, none of which is 0; the
-- zero that ends it is the end of the list.
use lib_dasics.Base.{ℕ, ◌≡◌, ◌↔◌, refl, arith, List, [], ◌∷◌, ◌==◌, ltb, if◌then◌else◌}
use lib_dasics.Udasics.State.{minus_one}

abbrev pub Str : Type 0
Str = List ℕ

-- The loop, on the characters that are left.
pub strcmp : Str → Str → ℕ
strcmp [] [] = 0
strcmp [] (y ∷ ys) = minus_one
strcmp (x ∷ xs) [] = 1
strcmp (x ∷ xs) (y ∷ ys) =
    let rest = strcmp xs ys in if x == y then rest else if ltb x y then minus_one else 1

strcmp_self : (a : Str) → strcmp a a ≡ 0
unfolding strcmp
strcmp_self [] = refl
strcmp_self (x ∷ xs) = ground (arith, strcmp_self xs)

eq_of-strcmp : (a b : Str) → strcmp a b ≡ 0 → a ≡ b
unfolding strcmp
eq_of-strcmp [] [] e = refl
eq_of-strcmp [] (y ∷ ys) e = absurd (omega arith)
eq_of-strcmp (x ∷ xs) [] e = absurd (omega arith)
eq_of-strcmp (x ∷ xs) (y ∷ ys) e = ground (arith, eq_of-strcmp xs ys)

pub strcmp_iff : (a b : Str) → (strcmp a b ≡ 0) ↔ (a ≡ b)
strcmp_iff a b = (eq_of-strcmp a b, λ e. rw e (strcmp_self b))
