-- ===== src/Loader/Targets/Entries.antt =====
-- The entries that `_fill_target_elf` reaches.
use lib_dasics.Base.{
  ℕ, zero, suc, ◌+◌, ◌<◌, ◌≤◌, ◌≡◌, ◌≢◌, ◌⊎◌, inl, inr, refl, arith, Bool-cases, false, Option,
  none, some, List, [], ◌∷◌, ◌==◌, ==_iff, if◌then◌else◌,
}
use lib_dasics.Elf.{Elf, is_main, get_area}
use lib_dasics.Elf.Laws.{IsIn}
use lib_dasics.Strings.{Str}
use lib_dasics.Loader.Targets.{
  main_flag, fill_target, fill_targets, fill_modules, fill_target_elf, IsKept, IsKept-refl,
  IsKept-trans, IsKept-sym, fill_target-IsKept, get_area-IsKept,
}

module _ (lib_name : ℕ → ℕ → Str) (chain : List ℕ) where
  -- The flag of an entry for a module that is there.
  abbrev FlagOf : (ℕ → Elf) → Option ℕ → ℕ → Type 0
  FlagOf elfs none x = Unit
  FlagOf elfs (some g) x = x ≡ (if is_main (elfs g) then 1 else 0)

  -- Entry `i` of the module at `p` is as the modules `elfs` ask.
  pub record IsFilled (elfs : ℕ → Elf) (p i : ℕ) (elfs' : ℕ → Elf) : Type 0 where
    pub target :
        (elfs' p).target_elf (i + 2) ≡ get_area elfs chain ((elfs p).local_got_table (i + 2))
    pub name : (elfs' p).target_func_name (i + 2) ≡ some (lib_name p i)
    pub flag :
        FlagOf elfs
          (get_area elfs chain ((elfs p).local_got_table (i + 2)))
          ((elfs' p).target_is_main (i + 2))

  main_flag-same :
      (elfs elfs' : ℕ → Elf) (t : Option ℕ) (i : ℕ) (flags : ℕ → ℕ)
      → IsKept lib_name chain elfs elfs'
      → FlagOf elfs t (main_flag elfs' t i flags i)
  unfolding is_main
  main_flag-same elfs elfs' none i flags k = tt
  main_flag-same elfs elfs' (some g) i flags k = rw ((==_iff i i).1 refl, k.flags g) refl

  main_flag-other :
      (elfs : ℕ → Elf) (t : Option ℕ) (i j : ℕ) (flags : ℕ → ℕ)
      → (i == j) ≡ false
      → main_flag elfs t i flags j ≡ flags j
  main_flag-other elfs none i j flags ne = refl
  main_flag-other elfs (some g) i j flags ne = rw ne refl

  module _ (elfs elfs' : ℕ → Elf) (k : IsKept lib_name chain elfs elfs') where
    fill_target-IsFilled : (p i : ℕ) → IsFilled elfs p i (fill_target lib_name chain p i elfs')
    unfolding fill_target
    fill_target-IsFilled p i =
        let area : get_area elfs' chain ((elfs' p).local_got_table (i + 2))
            ≡ get_area elfs chain ((elfs p).local_got_table (i + 2)) =
          rw (k.table p (i + 2)) (get_area-IsKept lib_name chain elfs elfs' chain _ k) in
        record {
          target = rw ((==_iff p p).1 refl, (==_iff (i + 2) (i + 2)).1 refl) area;
          name = ground arith;
          flag = rw ((==_iff p p).1 refl, area) (main_flag-same elfs elfs' _ (i + 2) _ k);
        }

    fill_target-other :
        (p i q j : ℕ)
        → (q ≢ p) ⊎ (j ≢ i)
        → IsFilled elfs p i elfs'
        → IsFilled elfs p i (fill_target lib_name chain q j elfs')
    unfolding fill_target
    fill_target-other p i q j ne s = elim (Bool-cases (q == p)) [
      | inl y ↦
          let apart : (j + 2 == i + 2) ≡ false = ground arith in
          let eq : q ≡ p = (==_iff q p).0 y in
          record {
            target = rw (y, apart, eq) s.target;
            name = rw (y, apart, eq) s.name;
            flag =
                rw
                  (
                    y,
                    main_flag-other elfs' (get_area elfs' chain ((elfs' q).local_got_table (j + 2)))
                        (j + 2) (i + 2) (elfs' q).target_is_main apart,
                    eq,
                  )
                  s.flag;
          }
      | inr n ↦ record { target = rw n s.target; name = rw n s.name; flag = rw n s.flag }
    ]

    fill_target-keeps :
        (p i q j : ℕ)
        → IsFilled elfs p i elfs'
        → IsFilled elfs p i (fill_target lib_name chain q j elfs')
    fill_target-keeps p i q j s = elim (Bool-cases (q == p)) [
      | inr n ↦ fill_target-other p i q j (inl (ground arith)) s
      | inl y ↦ elim (Bool-cases (j == i)) [
        | inr n ↦ fill_target-other p i q j (inr (ground arith)) s
        | inl z ↦
            let eq : q ≡ p = (==_iff q p).0 y in
            let eq' : j ≡ i = (==_iff j i).0 z in rw (eq, eq') (fill_target-IsFilled p i)
      ]
    ]

  -- The loops reach every entry, and keep what is set.
  module _ (elfs : ℕ → Elf) where
    fill_targets-IsKept :
        (p left i : ℕ) (elfs' : ℕ → Elf)
        → IsKept lib_name chain elfs elfs'
        → IsKept lib_name chain elfs (fill_targets lib_name chain p left i elfs')
    unfolding fill_targets
    fill_targets-IsKept p zero i elfs' k = k
    fill_targets-IsKept p (suc left) i elfs' k =
        fill_targets-IsKept p left (i + 1) (fill_target lib_name chain p i elfs')
          (IsKept-trans lib_name chain elfs elfs' _ k (fill_target-IsKept lib_name chain p i elfs'))

    fill_targets-keeps :
        (p i q left j : ℕ) (elfs' : ℕ → Elf)
        → IsKept lib_name chain elfs elfs'
        → IsFilled elfs p i elfs'
        → IsFilled elfs p i (fill_targets lib_name chain q left j elfs')
    unfolding fill_targets
    fill_targets-keeps p i q zero j elfs' k s = s
    fill_targets-keeps p i q (suc left) j elfs' k s =
        fill_targets-keeps p i q left (j + 1) (fill_target lib_name chain q j elfs')
          (IsKept-trans lib_name chain elfs elfs' _ k (fill_target-IsKept lib_name chain q j elfs'))
          (fill_target-keeps elfs elfs' k p i q j s)

    fill_targets-IsFilled :
        (p i left j : ℕ) (elfs' : ℕ → Elf)
        → IsKept lib_name chain elfs elfs'
        → j ≤ i
        → i < j + left
        → IsFilled elfs p i (fill_targets lib_name chain p left j elfs')
    unfolding fill_targets
    fill_targets-IsFilled p i zero j elfs' k lo hi = absurd (omega arith)
    fill_targets-IsFilled p i (suc left) j elfs' k lo hi =
        let k' =
          IsKept-trans lib_name chain elfs elfs' _ k
            (fill_target-IsKept lib_name chain p j elfs') in
        elim (Bool-cases (j == i)) [
          | inl y ↦
              let eq : j ≡ i = (==_iff j i).0 y in
              fill_targets-keeps p i p left (j + 1) (fill_target lib_name chain p j elfs') k'
                (rw eq (fill_target-IsFilled elfs elfs' k p i))
          | inr n ↦
              fill_targets-IsFilled p i left (j + 1) (fill_target lib_name chain p j elfs') k'
                (ground arith) (omega arith)
        ]

    fill_modules-IsKept :
        (ps : List ℕ) (elfs' : ℕ → Elf)
        → IsKept lib_name chain elfs elfs'
        → IsKept lib_name chain elfs (fill_modules lib_name chain ps elfs')
    unfolding fill_modules
    fill_modules-IsKept [] elfs' k = k
    fill_modules-IsKept (p ∷ ps) elfs' k =
        fill_modules-IsKept ps _ (fill_targets-IsKept p (elfs' p).got_num 0 elfs' k)

    fill_modules-keeps :
        (p i : ℕ) (ps : List ℕ) (elfs' : ℕ → Elf)
        → IsKept lib_name chain elfs elfs'
        → IsFilled elfs p i elfs'
        → IsFilled elfs p i (fill_modules lib_name chain ps elfs')
    unfolding fill_modules
    fill_modules-keeps p i [] elfs' k s = s
    fill_modules-keeps p i (q ∷ qs) elfs' k s =
        fill_modules-keeps p i qs _ (fill_targets-IsKept q (elfs' q).got_num 0 elfs' k)
          (fill_targets-keeps p i q (elfs' q).got_num 0 elfs' k s)

    fill_modules-IsFilled :
        (p i : ℕ) (ps : List ℕ) (elfs' : ℕ → Elf)
        → IsKept lib_name chain elfs elfs'
        → IsIn p ps
        → i < (elfs p).got_num
        → IsFilled elfs p i (fill_modules lib_name chain ps elfs')
    unfolding fill_modules
    fill_modules-IsFilled p i [] elfs' k h few = absurd h
    fill_modules-IsFilled p i (q ∷ qs) elfs' k (inl e) few =
        let n = k.got_num p in
        let here =
          fill_targets-IsFilled p i (elfs' p).got_num 0 elfs' k (omega arith) (omega (arith, n)) in
        rw (← e)
          (fill_modules-keeps p i qs _ (fill_targets-IsKept p (elfs' p).got_num 0 elfs' k) here)
    fill_modules-IsFilled p i (q ∷ qs) elfs' k (inr h) few =
        fill_modules-IsFilled p i qs _ (fill_targets-IsKept q (elfs' q).got_num 0 elfs' k) h few

    pub fill_target_elf-IsKept : IsKept lib_name chain elfs (fill_target_elf lib_name chain elfs)
    unfolding fill_target_elf
    fill_target_elf-IsKept = fill_modules-IsKept chain elfs (IsKept-refl lib_name chain elfs)

  -- After `_fill_target_elf` every entry of every module of the chain is consistent with the
  -- modules as they then are: the target is what `_get_area` finds for the entry of the local
  -- table, the name is that of the function, and, if there is a target, the flag says whether it
  -- is trusted.
  pub fill_target_elf_lem :
      (elfs : ℕ → Elf) (p i : ℕ)
      → IsIn p chain
      → i < (fill_target_elf lib_name chain elfs p).got_num
      → IsFilled (fill_target_elf lib_name chain elfs) p i (fill_target_elf lib_name chain elfs)
  unfolding fill_target_elf
  fill_target_elf_lem elfs p i h few =
      let filled = fill_target_elf lib_name chain elfs in
      fill_modules-IsFilled filled p i chain elfs
        (IsKept-sym lib_name chain elfs filled (fill_target_elf-IsKept elfs)) h few
