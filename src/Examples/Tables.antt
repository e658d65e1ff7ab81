-- ===== src/Examples/Tables.antt =====
-- The page tables of the boot stage.
use closure_os.Base.{
  ℕ, ◌+◌, ◌^◌, ◌≡◌, refl, bit_or, false, none, some, [], ◌==◌, if◌then◌else◌, arith,
}
use mathlib.Core.Option.{some-injective}
use closure_os.Layout.{page_align}
use closure_os.BootMem.{
  boot_mm_page_alloc, find_region, next_region, take_page, addr_is_in_used_range,
}
use closure_os.BootMem.Linear.{IsCursor}
use closure_os.PageTable.{
  Boot, Outcome, ok, err, halted, unfinished, lookup, boot_mm_pgtable_map, pgd_entry, pud_entry,
  pmd_entry, pte_entry,
}
use closure_os.PageTable.Tree.{table}
use closure_os.PageTable.Map.{IsTables, Maps, boot_mm_pgtable_map_lem}
use closure_os.PageTable.Init.{map_range, new_page, boot_mm_pgtable_init}
use closure_os.PageTable.Runs.{Runs, Failed}
use closure_os.PageTable.Range.{RangeMapped, map_range-Runs}
use closure_os.PageTable.Entries.{IsSmall}
use closure_os.PageTable.Kernel.{IsKernelMap, boot_mm_pgtable_init_lem}
use closure_os.PageTable.Sections.{has_unknown}
use closure_os.Examples.Boot.{machine, at_start, machine-IsMap, at_start-IsCursor, no_err}

-- An empty top table at 0x102000, behind which the allocator goes on.
abbrev with_root : Boot
with_root = record {
  word = λ a. 0;
  cursor = record {
    curr_entry = some 0;
    next_entry_idx = 1;
    curr_avail = 0x103000;
    curr_end = 0x110000;
  };
}

with_root-IsCursor : IsCursor machine with_root.cursor
with_root-IsCursor = (
  (λ j e. (
    refl,
    ground (arith, some-injective _ _ e),
    refl,
    refl,
    omega arith,
    omega arith,
    omega arith,
  )),
  (λ j from to. omega arith),
  omega arith,
)

with_root-IsTables : IsTables machine (2 ^ 40 + 1) 0x102000 with_root
with_root-IsTables = (
  λ p. if p == 0x102000 then some (table 3 0) else none,
  record {
    top = refl;
    child = λ t l y i lab hi ne. absurd (ne refl);
    placed = λ t q lab. ground arith;
  },
  record { in_order = with_root-IsCursor; enough = omega arith },
)

map_example :
    Maps machine
      (2 ^ 40 + 1)
      0x102000
      0xFFFF_8000_0000_0000
      (bit_or 0x5000 3)
      with_root
      (boot_mm_pgtable_map (2 ^ 40 + 1) machine 0x102000 0xFFFF_8000_0000_0000 0x5000 3 with_root)
map_example =
    boot_mm_pgtable_map_lem machine (2 ^ 40 + 1) 0x102000 0xFFFF_8000_0000_0000 0x5000 3 with_root
      machine-IsMap no_err with_root-IsTables

abbrev pub blank : Boot
blank = record { word = λ a. 0; cursor = at_start }

-- What is read at `va` behind a run.
read : (root va : ℕ) → {A : Type 0} → Outcome A → ℕ
read root va (ok a b) = lookup 3 root va b.word
read root va (err e b) = 0
read root va halted = 0
read root va unfinished = 0

mapped_test :
    read 0x102000 0xFFFF_8000_0000_0123
      (boot_mm_pgtable_map 20 machine 0x102000 0xFFFF_8000_0000_0000 0x5000 3 with_root)
    ≡ 0x5003
unfolding read boot_mm_pgtable_map lookup boot_mm_page_alloc find_region take_page
    addr_is_in_used_range pgd_entry pud_entry pmd_entry pte_entry
mapped_test = refl

-- The machine's last page in the direct map of the table that `boot_mm_pgtable_init` loads.
init_test : read 0x102000 0xFFFF_8000_0010_F000 (boot_mm_pgtable_init 20 machine blank) ≡ 0x10F003
unfolding read boot_mm_pgtable_init boot_mm_pgtable_map lookup new_page boot_mm_page_alloc
    find_region next_region page_align addr_is_in_used_range take_page pgd_entry pud_entry pmd_entry
    pte_entry
init_test = refl

map_range_example :
    Runs
      (λ _ after.
        IsTables machine (2 ^ 40 + 1) 0x102000 after
        × RangeMapped 0x102000 0xFFFF_FFFF_8000_0000 0x100000 0x102800 1 with_root after)
      (Failed machine false)
      (map_range
        (2 ^ 40 + 1)
        machine
        0x102000
        4
        0xFFFF_FFFF_8000_0000
        0x100000
        0x102800
        1
        with_root)
map_range_example =
    map_range-Runs machine machine-IsMap no_err (2 ^ 40 + 1) false 0x102000 4 0xFFFF_FFFF_8000_0000
      0x100000 0x102800 1 with_root (omega arith) (omega arith) (omega arith) (omega arith)
      with_root-IsTables

machine-IsSmall : IsSmall machine
machine-IsSmall = λ i h. omega arith

pgtable_init_example :
    Runs
      (IsKernelMap machine (2 ^ 40 + 1))
      (Failed machine (has_unknown []))
      (boot_mm_pgtable_init (2 ^ 40 + 1) machine blank)
pgtable_init_example =
    boot_mm_pgtable_init_lem machine (2 ^ 40 + 1) blank machine-IsMap machine-IsSmall no_err
      (record { in_order = at_start-IsCursor; enough = omega arith })
