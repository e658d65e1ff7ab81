-- ===== src/MmMain.antt =====
-- src/kernel/mm/mm_main.cppm: the page pool gets the free pages of the page database one by one, and
-- the object caches of all sizes are put on top of it.
pub mod Solid
pub mod Owning
pub mod Pages
pub mod Caches
pub mod Heap
pub mod Malloc
pub mod Memory
use closure_os.Base.{ℕ, zero, suc, ◌+◌, ◌-◌, ◌*◌, ◌/◌, ◌&&◌, List, [], ◌∷◌, ◌==◌, if◌then◌else◌}
use closure_os.Atomic.{is_negative}
use closure_os.Kernel.{Kernel, Cmd, ok, pure, ◌>>=◌, ◌>>◌, get, modify}
use closure_os.Page.{page_normal_mem}
use closure_os.PageTable.Init.{pgdb_pg_page_nr}
use closure_os.Pool
use closure_os.Pool.Mapped.{add_pages_in}
use closure_os.Cache
use closure_os.HeapPool
use closure_os.HeapPool.{KHeapPool}

-- `kobj_default_size`
abbrev pub kobj_default_size : List ℕ
kobj_default_size = 16 ∷ 32 ∷ 64 ∷ 128 ∷ 192 ∷ 256 ∷ 512 ∷ 1024 ∷ 2048 ∷ 4096 ∷ 8192 ∷ []

abbrev pub kobject_size_nr : ℕ
kobject_size_nr = 11

abbrev pub nth : List ℕ → ℕ → ℕ
nth [] i = 0
nth (x ∷ xs) zero = x
nth (x ∷ xs) (suc i) = nth xs i

-- The descriptors that the loop of `boot_mm_pgtable_init` over the page database maps: whole pages.
abbrev pub pgdb_mapped : (pgdb_page_nr : ℕ) → ℕ
pgdb_mapped pgdb_page_nr =
    (pgdb_page_nr + (pgdb_pg_page_nr - 1)) / pgdb_pg_page_nr * pgdb_pg_page_nr

-- The loop of `pages_pool_init` over the pages from `i` on; `pool` is `GloblPagePool`.
unfoldable pub add_free_pages : (mapped rounds i pool : ℕ) → Cmd (Unit {0})
add_free_pages mapped zero i pool = pure tt
add_free_pages mapped (suc rounds) i pool =
    let rest = add_free_pages mapped rounds (i + 1) pool in
    get >>= λ s.
    if ((s.page i).type == page_normal_mem) && is_negative (s.page i).ref_count
    then (add_pages_in mapped pool i 0 >> rest)
    else rest

unfoldable pub pages_pool_init : (pgdb_page_nr pool : ℕ) → Cmd (Unit {0})
unfolding add_free_pages
pages_pool_init pgdb_page_nr pool =
    modify (Pool.init pool) >> add_free_pages (pgdb_mapped pgdb_page_nr) pgdb_page_nr 0 pool

-- The loop of `kheap_pool_init`; cache `i` serves the objects of the `i`-th default size.
unfoldable pub init_caches : (sizes : List ℕ) (i pool : ℕ) → Kernel → Kernel
init_caches [] i pool s = s
init_caches (sz ∷ sizes) i pool s =
    init_caches sizes (i + 1) pool (Cache.add_pool i pool (Cache.init i sz s)).1

-- `kheap_pool_init`, with one page pool, of the type `PAGE_POOL_TYPE_NORMAL`
unfoldable pub kheap_pool_init : (pool : ℕ) → KHeapPool → Kernel → KHeapPool × Kernel
unfolding init_caches
kheap_pool_init pool h s = (
  HeapPool.set_page_pools (λ _. pool) 1
      (HeapPool.set_kmem_caches (λ i. i) kobject_size_nr (nth kobj_default_size) (HeapPool.init h)),
  init_caches kobj_default_size 0 pool s,
)

-- `mm_core_init`
unfoldable pub mm_core_init : (pgdb_page_nr pool : ℕ) → KHeapPool → Cmd KHeapPool
unfolding kheap_pool_init
mm_core_init pgdb_page_nr pool h =
    pages_pool_init pgdb_page_nr pool >> λ s. let (h₁, s₁) = kheap_pool_init pool h s in ok h₁ s₁
