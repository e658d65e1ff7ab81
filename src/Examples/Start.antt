-- ===== src/Examples/Start.antt =====
-- The start of the kernel and the C++ runtime.
use closure_os.Base.{
  ℕ, zero, suc, ◌%◌, ◌^◌, ◌≡◌, ◌⊎◌, inr, refl, none, some, List, [], ◌∷◌, ◌==◌, if◌then◌else◌,
  arith,
}
use closure_os.Layout.{page_align}
use closure_os.Kernel.{Kernel, Run, ok, fault, stuck, pure, and_then}
use closure_os.BootMem.{addr_is_in_used_range, enomem}
use closure_os.BootMem.Database.{boot_mm_page_database_init}
use closure_os.BootMem.Pages.{Based, boot_mm_page_database_init_lem}
use closure_os.PageTable.{pud_entry}
use closure_os.BootMain.{boot_pgtable_init, large_page, boot_pgtable_init_lem}
use closure_os.BootStart.{
  InfoTag, mmap_tag, elf_sections_tag, find_tags, end_of_tags, boot_info, boot_mm_init,
}
use closure_os.BootStart.Init.{Starts, boot_mm_init_lem}
use closure_os.HeapPool.{KHeapPool}
use closure_os.Cache
use closure_os.HeapPool
use closure_os.Runtime.{Dtors, operator_new, cxa_atexit, cxa_finalize, global_constructor_caller}
use closure_os.Runtime.Finalize.{Entry, IsDtors, IsDistinct, remaining, exit_all}
use closure_os.Runtime.Exit.{cxa_atexit_lem, cxa_finalize_lem}
use closure_os.Runtime.Constructors.{run_constructors, global_constructor_caller_lem}
use closure_os.Examples.Boot.{machine, machine-IsMap, at_start-IsCursor}
use closure_os.Examples.Tables.{blank}
use closure_os.Examples.Pools.{memory, zero_cache}

boot_pgtable_example :
    (large_page (boot_pgtable_init (λ i. 7) (pud_entry 0x4012_3456)) 0x4012_3456 ≡ 0x4012_3456)
    × (boot_pgtable_init (λ i. 7) (pud_entry 0x4012_3456) % 2 ^ 30 ≡ 0x83)
    × (boot_pgtable_init (λ i. 7) 0 ≡ 7)
boot_pgtable_example = boot_pgtable_init_lem (λ i. 7) 0x4012_3456 (omega arith) (omega arith)

database_example :
    (after : Kernel) × (boot_mm_page_database_init (suc (2 ^ 40)) machine 0x108000 memory
      ≡ some after)
    × Based machine 0x108000 0 1 memory.page after.page
database_example =
    boot_mm_page_database_init_lem (2 ^ 40) machine 0x108000 memory machine-IsMap (λ i h. refl)
      (omega arith)

-- The tags of that machine, from 0x100000 on.
abbrev pub tags : List InfoTag
tags =
    mmap_tag 40 (λ i. record { addr = 0x100000; len = 0x10000; type = 1 })
    ∷ elf_sections_tag 20 []
    ∷ []

boot_mm_init_example :
    Starts
      (boot_info 0x100000 tags 40
        (λ i. record { addr = 0x100000; len = 0x10000; type = 1 })
        []
        none)
      (suc (2 ^ 40))
      memory
      (boot_mm_init (suc (2 ^ 40)) 0x100000 tags none blank memory)
unfolding boot_info end_of_tags page_align find_tags addr_is_in_used_range
boot_mm_init_example =
    boot_mm_init_lem (2 ^ 40) 0x100000 40 tags
      (λ i. record { addr = 0x100000; len = 0x10000; type = 1 }) [] none blank memory refl
      machine-IsMap (λ i h. omega arith) (λ i h. refl) (λ i h. refl) refl
      (record { in_order = at_start-IsCursor; enough = omega arith }) (omega arith)

-- A heap of one cache for objects of 32 bytes, with one on the free list of its current page.
abbrev heap : KHeapPool
heap = record {
  caches = λ i. i;
  cache_nr = 1;
  cache_obj_sizes = λ i. 32;
  pools = λ i. 0;
  pool_nr = 0;
}

-- Two destructors that wait, for the handles 5 and 6.
abbrev two : Dtors
two = record {
  node = λ p.
      if p == 0x1000
      then record { next = 0x2000; destructor = 11; arg = 1; dso_handle = 5 }
      else record { next = 0; destructor = 12; arg = 2; dso_handle = 6 };
  global_dtors = 0x1000;
  dtor_exit_lock = 0;
}

abbrev entries : List Entry
entries =
    record { at = 0x1000; destructor = 11; arg = 1; dso_handle = 5 }
    ∷ record { at = 0x2000; destructor = 12; arg = 2; dso_handle = 6 }
    ∷ []

two-IsDtors : IsDtors two.node two.global_dtors entries
two-IsDtors = (refl, omega arith, (refl, refl, refl), (refl, omega arith, (refl, refl, refl), refl))

entries-IsDistinct : IsDistinct entries
entries-IsDistinct = ((omega arith, tt), (tt, tt))

finalize_example :
    (after : Dtors) × IsDtors after.node after.global_dtors (remaining 5 entries)
    × (after.dtor_exit_lock ≡ 0)
    × ((s : Kernel)
        → cxa_finalize (λ destructor arg. pure tt) 3 5 two s
          ≡ and_then (exit_all (λ destructor arg. pure tt) 5 entries s) (λ _. pure after))
finalize_example =
    cxa_finalize_lem (λ destructor arg. pure tt) 5 entries 3 two (omega arith) two-IsDtors
      entries-IsDistinct refl

abbrev ready : Kernel
ready = record memory {
  cache =
      λ k. record zero_cache { current = some 3; page_obj_nr = 64; obj_sz = 32; freelist = 0x3040 };
}

abbrev final : Run ℕ → Kernel
final (ok a s) = s
final fault = memory
final stuck = memory

new_example : (s' : Kernel) × (operator_new 1 heap 32 ready ≡ ok 0x3040 s')
unfolding operator_new HeapPool.malloc Cache.malloc Cache.lock_cache Cache.internal_obj_alloc
    Cache.pop_object Cache.unlock_cache
new_example = (final (operator_new 1 heap 32 ready), refl)

atexit_example :
    ((0x3040 ≡ zero) × (cxa_atexit 1 heap 13 3 7 two ready ≡ ok (enomem, two) new_example.0))
    ⊎ ((after : Dtors) × (cxa_atexit 1 heap 13 3 7 two ready ≡ ok (0, after) new_example.0)
        × IsDtors after.node after.global_dtors
            (record { at = 0x3040; destructor = 13; arg = 3; dso_handle = 7 } ∷ entries)
        × (after.dtor_exit_lock ≡ 0))
atexit_example =
    cxa_atexit_lem 1 heap 13 3 7 entries two ready new_example.0 0x3040 two-IsDtors
      entries-IsDistinct (omega arith, (omega arith, tt)) new_example.1

-- Two constructors, and a null pointer behind them.
constructors_example :
    global_constructor_caller (λ f. pure 0) 4 (λ i. if i == 0 then 21 else if i == 1 then 22 else 0)
    ≡ run_constructors (λ f. pure 0) (21 ∷ 22 ∷ [])
constructors_example =
    global_constructor_caller_lem (λ f. pure 0)
      (λ i. if i == 0 then 21 else if i == 1 then 22 else 0) (21 ∷ 22 ∷ []) 4
      (omega arith, refl, omega arith, (omega arith, refl, omega arith, inr (omega arith, refl)))
