-- ===== src/HeapPool.antt =====
-- `class KHeapPool` of src/kernel/mm/heap_mm.cppm, the front end of the object caches and page pools.
pub mod Order
pub mod Choice
pub mod Large
use closure_os.Base.{
  ℕ, zero, suc, ◌+◌, ◌*◌, ◌/◌, ◌^◌, Bool, true, false, Option, none, some, ◌==◌, ltb, leb,
  if◌then◌else◌,
}
use closure_os.Layout.{page_size, page_shift}
use closure_os.Kernel.{Kernel, Cmd, Run, ok, stuck, pure, ◌>>=◌, ◌>>◌, get, modify, throw}
use closure_os.Page.{page_to_virt, virt_to_page, get_head_page}
use closure_os.Pool.{alloc_pages, free_pages, free_to_pool, get_page, put_page}
use closure_os.Cache.{not_null}
use closure_os.Cache

-- The arrays that the pool points to, as functions of the index.
pub record KHeapPool : Type 0 where
  pub caches : ℕ → ℕ
  pub cache_nr : ℕ
  pub cache_obj_sizes : ℕ → ℕ
  pub pools : ℕ → ℕ
  pub pool_nr : ℕ

-- `KHeapPool::__malloc_caches`: the caches from `i` on.
unfoldable pub malloc_caches : (rounds i fuel : ℕ) → KHeapPool → (size : ℕ) → Cmd ℕ
malloc_caches zero i fuel h size = pure 0
malloc_caches (suc rounds) i fuel h size =
    let rest = malloc_caches rounds (i + 1) fuel h size in
    if leb size (h.cache_obj_sizes i)
    then (Cache.malloc fuel (h.caches i) >>= λ obj. (if not_null obj then pure obj else rest))
    else rest

-- `while (size > 0) { order++; size >>= 1; }`
unfoldable pub order_loop : (fuel size order : ℕ) → Option ℕ
order_loop zero size order = none
order_loop (suc fuel) size order =
    let rest = order_loop fuel (size / 2) (order + 1) in if not_null size then rest else some order

-- The order of the block for `need` bytes. `1 << order` is an `int` in the source: this is its value
-- for orders below 31.
unfoldable pub order_for : ℕ → Option ℕ
order_for need = elim (order_loop 64 (need / 2 ^ (page_shift + 1)) 0) [
  | none ↦ none
  | some order ↦ some (if ltb (2 ^ order * page_size) need then order + 1 else order)
]

-- `KHeapPool::__malloc_pools` from pool `i` on.
unfoldable pub malloc_from : (rounds i : ℕ) → KHeapPool → (order : ℕ) → Cmd ℕ
malloc_from zero i h order = pure 0
malloc_from (suc rounds) i h order =
    let rest = malloc_from rounds (i + 1) h order in
    alloc_pages (h.pools i) order >>= λ obj. elim obj [
      | none ↦ rest
      | some p ↦ modify (get_page p) >> pure (page_to_virt p)
    ]

unfoldable pub malloc_pools : KHeapPool → (size : ℕ) → Cmd ℕ
unfolding order_for malloc_from
malloc_pools h size s = elim (order_for size) [
  | none ↦ stuck
  | some order ↦ malloc_from h.pool_nr 0 h order s
]

-- `KHeapPool::Malloc`
unfoldable pub malloc : (fuel : ℕ) → KHeapPool → (size : ℕ) → Cmd ℕ
unfolding malloc_caches malloc_pools
malloc fuel h size = do
  obj ← malloc_caches h.cache_nr 0 fuel h size
  if not_null obj then pure obj else malloc_pools h size

-- `KHeapPool::Free`
unfoldable pub free : (obj : ℕ) → Cmd (Unit {0})
free obj s =
    let page = get_head_page s.page (virt_to_page obj) in
    elim (s.page page).kc [ none ↦ put_page page s | some k ↦ Cache.free k page obj s ]

-- `KHeapPool::PageAlloc` from pool `i` on.
unfoldable pub page_alloc_from : (rounds i : ℕ) → KHeapPool → (order : ℕ) → Cmd (Option ℕ)
page_alloc_from zero i h order = pure none
page_alloc_from (suc rounds) i h order =
    let rest = page_alloc_from rounds (i + 1) h order in
    alloc_pages (h.pools i) order >>= λ obj. elim obj [ none ↦ rest | some p ↦ pure (some p) ]

unfoldable pub page_alloc : KHeapPool → (order : ℕ) → Cmd (Option ℕ)
unfolding page_alloc_from
page_alloc h order = page_alloc_from h.pool_nr 0 h order

-- `KHeapPool::PageFree`
unfoldable pub page_free : Option ℕ → Cmd (Unit {0})
page_free none s = ok tt s
page_free (some p) s = free_to_pool (get_head_page s.page p) s

-- `KHeapPool::Init`, `SetKMemCaches` and `SetPagePools`
unfoldable pub init : KHeapPool → KHeapPool
init h = record h {
  cache_nr = 0;
  cache_obj_sizes = λ _. 0;
  caches = λ _. 0;
  pools = λ _. 0;
  pool_nr = 0;
}

unfoldable pub set_kmem_caches : (ℕ → ℕ) → ℕ → (ℕ → ℕ) → KHeapPool → KHeapPool
set_kmem_caches caches cache_nr cache_obj_sizes h = record h {
  caches = caches;
  cache_nr = cache_nr;
  cache_obj_sizes = cache_obj_sizes;
}

unfoldable pub set_page_pools : (ℕ → ℕ) → ℕ → KHeapPool → KHeapPool
set_page_pools pools pool_nr h = record h { pools = pools; pool_nr = pool_nr }
