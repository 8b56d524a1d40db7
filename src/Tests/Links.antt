-- ===== src/Tests/Links.antt =====
-- Relocation, redirection and the PLT, on two modules.
use lib_dasics.Base.{
  ◌&&◌, ℕ, ◌+◌, ◌*◌, ◌<◌, ◌≡◌, ◌≢◌, ◌⊎◌, refl, arith, List, [], ◌∷◌, some, true, false, ◌==◌,
  if◌then◌else◌,
}
use lib_dasics.Base.Result.{ok}
use lib_dasics.Elf.{Elf, is_main, get_area, in_range}
use lib_dasics.Elf.Laws.{HasText}
use lib_dasics.Strings.{Str}
use lib_dasics.Reloc.{Links, call_reloc, add_redirect_item, delete_redirect_item}
use lib_dasics.Reloc.Laws.{IsCopy, IsSwitched, call_reloc_lem, redirect_item_lem}
use lib_dasics.Plt.{init_elf_plt, init_elf_plt_lem}
use lib_dasics.Segments.{Phdr, Areas, fill_module_map}
use lib_dasics.Segments.Laws.{AllCovered, fill_module_map-covers}
use lib_dasics.Auxv.{
  get_auxv, after_zero, write_entry, has_entry, get_auxv_entry, set_auxv_entry,
  get_auxv_entry-set_auxv_entry,
}
use lib_dasics.Tests.Machine.{module_at}

-- A trusted library and its untrusted copy.
abbrev copies : ℕ → Elf
copies p =
    if p == 1
    then record (module_at 0x10000 1) { copy_lib_elf = some 2 }
    else record (module_at 0x80000 2) { copy_lib_elf = some 1 }

abbrev links : Links
links = record { elfs = copies; chain = 1 ∷ 2 ∷ []; redirect_switch = true }

found_one : get_area copies (1 ∷ 2 ∷ []) 0x11234 ≡ some 1
unfolding get_area in_range
found_one = refl

one_two : IsCopy copies 1 2
unfolding is_main
one_two = record {
  linked = refl;
  other_side = refl;
  start = refl;
  end = refl;
  above = omega arith;
  words = (omega arith, omega arith);
}

call_reloc_lem_example :
    (m : ℕ) × (a : ℕ) × (call_reloc (copies 2) 0x11234 links ≡ ok a)
    × HasText copies a m
    × (is_main (copies m) ≡ is_main (copies 2))
call_reloc_lem_example = call_reloc_lem (copies 2) 1 2 0x11234 links found_one one_two

-- The call of the untrusted copy is sent to itself.
sent_to : call_reloc (copies 2) 0x11234 links ≡ ok 0x81234
unfolding call_reloc get_area in_range lib_dasics.Reloc.reloc_found lib_dasics.Reloc.moved is_main
sent_to = refl

-- "f", "g", "h" and "k" by their numbers, and the name that is never redirected.
abbrev names : ℕ → Str
names i = (i + 102) ∷ []

abbrev start_main : Str
start_main = 95 ∷ 95 ∷ []

other_name : names 1 ≢ start_main
other_name e = cc

redirect_item_lem_example :
    ((add_redirect_item start_main names (103 ∷ []) links ≡ links)
      × (delete_redirect_item names (103 ∷ []) links ≡ links)
      × ((k : ℕ) → k + 2 < 4 → names k ≢ 103 ∷ []))
    ⊎ ((k : ℕ) × (k + 2 < 4)
        × (names k ≡ 103 ∷ [])
        × IsSwitched names
            (103 ∷ [])
            1
            (2 ∷ [])
            copies
            true
            k
            1
            (add_redirect_item start_main names (103 ∷ []) links)
        × IsSwitched names
            (103 ∷ [])
            1
            (2 ∷ [])
            copies
            true
            k
            0
            (delete_redirect_item names (103 ∷ []) links))
redirect_item_lem_example =
    redirect_item_lem names (103 ∷ []) 1 (2 ∷ []) copies true start_main (omega arith) (omega arith)
      other_name

init_elf_plt_lem_example :
    let e = init_elf_plt (0x1000 + 0x10 * 2) 0x2e17 0x7f0e3e03 0x3800 (module_at 0 1) in
    (e.plt_begin ≡ 0x1000) × (e.plt_start ≡ 0x1000 + 0x20) × (e.plt_end ≡ 0x1000 + 0x20 + 0x10 * 4)
init_elf_plt_lem_example =
    init_elf_plt_lem 0x1000 2 0x27f0 0x3800 0x2e17 0x7f0e3e03 (module_at 0 1) (omega arith)
      (omega arith) (omega arith) (omega arith) (omega arith) (omega arith) (omega arith)
      (omega arith)

-- A text segment and a data segment.
abbrev headers : List Phdr
headers =
    record { p_type = 1; p_flags = 5; p_vaddr = 0; p_memsz = 0x3000 }
    ∷ record { p_type = 1; p_flags = 6; p_vaddr = 0x3000; p_memsz = 0x1234 }
    ∷ []

abbrev no_areas : Areas
no_areas = record {
  map_start = 0;
  map_end = 0;
  text_start = 0;
  text_end = 0;
  r_start = 0;
  r_end = 0;
  w_start = 0;
  w_end = 0;
  relro_addr = 0;
  relro_size = 0;
  set_r = false;
  set_w = false;
  set_x = false;
  set_map = false;
}

fill_module_map-covers_example :
    AllCovered 0x20000 (fill_module_map 0x20000 headers no_areas) headers
fill_module_map-covers_example =
    fill_module_map-covers 0x20000 headers no_areas
      (omega arith, (λ e. omega arith), (omega arith, (λ e. omega arith), tt))

-- One argument, one variable, and a vector with types 3 and 6.
abbrev stack : List ℕ
stack = 1 ∷ 100 ∷ 0 ∷ 200 ∷ 0 ∷ 3 ∷ 7 ∷ 6 ∷ 8 ∷ 0 ∷ 0 ∷ []

written : set_auxv_entry 6 9 stack ≡ some (1 ∷ 100 ∷ 0 ∷ 200 ∷ 0 ∷ 3 ∷ 7 ∷ 6 ∷ 9 ∷ 0 ∷ 0 ∷ [])
unfolding set_auxv_entry after_zero write_entry
written = refl

get_auxv_entry-set_auxv_entry_example :
    (ws : List ℕ) × (get_auxv stack ≡ some ws)
    × ((k : ℕ)
        → get_auxv_entry k (1 ∷ 100 ∷ 0 ∷ 200 ∷ 0 ∷ 3 ∷ 7 ∷ 6 ∷ 9 ∷ 0 ∷ 0 ∷ [])
          ≡ (if (k == 6) && has_entry 6 ws then some 9 else get_auxv_entry k stack))
get_auxv_entry-set_auxv_entry_example = get_auxv_entry-set_auxv_entry 6 9 stack _ written
