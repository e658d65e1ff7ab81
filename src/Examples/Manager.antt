-- ===== src/Examples/Manager.antt =====
-- The memory manager's start on a machine with eight free pages.
use closure_os.Base.{
  none, ℕ_discrete, ◌==◌, ℕ, suc, ◌+◌, ◌-◌, ◌^◌, ◌≤◌, ◌<◌, ◌≡◌, refl, false, ◌↔◌, ◌||◌, ltb, leb,
  some, if◌then◌else◌, ◌⊎◌, arith, ◌*◌, Option,
}
use closure_os.Atomic.{minus_one, reset}
use closure_os.Kernel.{Run, fault, stuck, ◌>>◌, Kernel, ok}
use closure_os.Pool.Inv.{Covers}
use closure_os.Pool.{can_merge, alloc_pages, init, set_pool, alloc_page_direct, absorb}
use closure_os.Page.{reinit_page, get_page_buddy}
use closure_os.ListHead.{list_empty, list_add_next}
use closure_os.BootMem.{addr_is_in_used_range}
use closure_os.BootMem.Database.{boot_mm_page_database_init}
use closure_os.HeapPool.{KHeapPool, malloc}
use closure_os.Cache.First.{first_malloc_lem, IsOutOfMemory, IsFirst}
use closure_os.Cache
use closure_os.PageTable.Length.{database_length, physmem_end}
use closure_os.Pool.Put.{own_page}
use closure_os.Pool.Mapped.{add_pages_in, free_pages_in, merge_blocks_in}
use closure_os.MmMain.{add_free_pages, pages_pool_init, mm_core_init}
use closure_os.MmMain.Solid.{
  IsUnused, IsSolid, IsSolidSet-of, IsBuddyMappedSet, IsBuddyMapped, get_page_buddy-upper_bound,
}
use closure_os.MmMain.Pages.{IsFilled, pages_pool_init_lem}
use closure_os.MmMain.Heap.{IsStarted, mm_core_init_lem}
use closure_os.MmMain.Malloc.{IsServing, first_kmalloc_lem, large_kmalloc_lem}
use closure_os.HeapPool.Large.{IsRefused, IsLarge}
use closure_os.MmMain.Memory.{IsFreeMemory, boot_to_pool}
use closure_os.Examples.Pools.{memory, zero_page}
use closure_os.Examples.Boot.{machine, machine-IsMap}

-- Pages 264 to 271 are unused normal memory.
abbrev paged : Kernel
paged = record memory {
  page = λ q.
      if ltb q 264 || leb 272 q
      then zero_page
      else record zero_page { type = 1; ref_count = minus_one };
}

unmerged : (q : ℕ) → can_merge (paged.page q) ≡ false
unfolding can_merge
unmerged q = ground arith

in_line : (q : ℕ) → IsUnused paged.page 272 q ↔ ((264 ≤ q) × (q < 272))
in_line q = ground arith

paged-IsSolid : IsSolid paged.page 272
paged-IsSolid = IsSolidSet-of (IsUnused paged.page 272) (λ w q i le le' same fw fi.
    let a = (in_line w).0 fw in let b = (in_line i).0 fi in (in_line q).1 (omega arith))

-- A block of these pages has an order up to 3; the database has whole pages, so 320 descriptors.
pub line_buddies : (F : ℕ → Type 0) → ((q : ℕ) → F q → q < 272) → IsBuddyMappedSet F 272
line_buddies F inside k c small al all =
    let own = own_page k c in
    let last =
      inside (c + (2 ^ k - 1)) (all (c + (2 ^ k - 1)) (omega arith, omega (arith, own.1))) in
    omega (arith, last, own.1, get_page_buddy-upper_bound k c al)

paged-IsBuddyMapped : IsBuddyMapped paged.page 272
paged-IsBuddyMapped = line_buddies (IsUnused paged.page 272) (λ q u. u.0)

pages_pool_init_example :
    (after : Kernel) × (pages_pool_init 272 0 paged ≡ ok tt after)
    × IsFilled paged.page 272 0 272 after
pages_pool_init_example = pages_pool_init_lem 272 0 paged unmerged paged-IsSolid paged-IsBuddyMapped

abbrev heap : KHeapPool
heap = record {
  caches = λ i. 0;
  cache_nr = 0;
  cache_obj_sizes = λ i. 0;
  pools = λ i. 0;
  pool_nr = 0;
}

mm_core_init_example :
    (h' : KHeapPool) × (after : Kernel) × (mm_core_init 272 0 heap paged ≡ ok h' after)
    × IsStarted paged.page 272 0 h' after
mm_core_init_example = mm_core_init_lem 272 0 heap paged unmerged paged-IsSolid paged-IsBuddyMapped

-- The memory manager of that machine.
abbrev managed :
    (h' : KHeapPool) × (after : Kernel) × (mm_core_init 272 0 heap paged ≡ ok h' after)
    × IsStarted paged.page 272 0 h' after
managed = mm_core_init_lem 272 0 heap paged unmerged paged-IsSolid paged-IsBuddyMapped

first_kmalloc_example :
    IsServing managed.1 5000 0 managed.3.filled.lists (malloc 2 managed.0 5000 managed.1)
first_kmalloc_example =
    first_kmalloc_lem managed.3 (omega arith) 264 refl
      (λ q i. (in_line q).1 (omega (arith, i.0, i.1))) 5000 0 (omega arith)

first_malloc_example :
    IsOutOfMemory managed.1 3 0 0 managed.3.filled.lists (Cache.malloc 2 3 managed.1)
    ⊎ IsFirst managed.1 3 128 0 0 managed.3.filled.lists (Cache.malloc 2 3 managed.1)
unfolding Cache.cache_order
first_malloc_example =
    first_malloc_lem (managed.3.ready 3 (omega arith)) managed.3.filled.pool_ok
      managed.3.filled.lock (λ q c. omega (arith, ((managed.3.filled.pages q).0 c).0)) (omega arith)
      (omega arith) 0

free_line : (q : ℕ) → IsFreeMemory machine 0x108000 q ↔ ((264 ≤ q) × (q < 272))
unfolding addr_is_in_used_range
free_line q = (
  (λ f. let used = f.1 in ground arith),
  (λ b. ((0, omega arith, (omega arith, omega arith), refl), ground arith)),
)

machine_length : database_length machine ≡ 272
unfolding database_length physmem_end
machine_length = refl

boot_to_pool_example :
    (based : Kernel) × (h' : KHeapPool) × (after : Kernel) × (boot_mm_page_database_init
        (suc (2 ^ 40))
        machine
        0x108000
        memory
      ≡ some based)
    × (mm_core_init (database_length machine) 0 heap based ≡ ok h' after)
    × (started : IsStarted based.page (database_length machine) 0 h' after) × ((q : ℕ)
        → Covers started.filled.lists q ↔ IsFreeMemory machine 0x108000 q)
boot_to_pool_example =
    boot_to_pool (2 ^ 40) machine 0x108000 0 heap memory machine-IsMap (λ i h. refl) (λ i h. refl)
      (omega arith) (record { untyped = λ q. refl; headless = λ q. refl })
      (IsSolidSet-of (IsFreeMemory machine 0x108000) (λ w q i le le' same fw fi.
        let a = (free_line w).0 fw in let b = (free_line i).0 fi in (free_line q).1 (omega arith)))
      (rw machine_length
        (line_buddies (IsFreeMemory machine 0x108000) (λ q f. ((free_line q).0 f).1)))

large_kmalloc_example :
    (order : ℕ) × (20000 ≤ 2 ^ order * 4096)
    × ((2 ^ order * 4096 < 40000) ⊎ (order ≡ 0))
    × (IsRefused managed.1 0 order managed.3.filled.lists (malloc 2 managed.0 20000 managed.1)
        ⊎ IsLarge managed.1 20000 0 order managed.3.filled.lists
            (malloc 2 managed.0 20000 managed.1))
large_kmalloc_example = large_kmalloc_lem managed.3 20000 2 (omega arith) (omega arith)

-- Of the pages 0 to 3, page 1 is in use.
abbrev holed : Kernel
holed = record memory {
  page = λ q.
      if leb 4 q || (q == 1)
      then record zero_page { type = 1 }
      else record zero_page { type = 1; ref_count = minus_one };
}

abbrev result : Run (Option ℕ) → Option ℕ
result (ok p s) = p
result fault = none
result stuck = none

-- Page 3 completes the upper half, and the free page 0 is taken for the whole lower half: the pool
-- hands out a block of four pages with the used page in it.
used_page_given : result ((pages_pool_init 4 0 >> alloc_pages 0 2) holed) ≡ some 0
unfolding pages_pool_init add_free_pages alloc_pages init set_pool reset reinit_page add_pages_in
    free_pages_in merge_blocks_in can_merge get_page_buddy alloc_page_direct list_empty
    list_add_next ℕ_discrete absorb
used_page_given = refl

-- The first 64 pages given back as one block, with no more descriptors mapped: the buddy's is read.
buddy_unmapped : free_pages_in 64 0 (some 0) 6 (record memory { pool_lock = λ _. 0 }) ≡ fault
unfolding free_pages_in merge_blocks_in get_page_buddy
buddy_unmapped = refl
