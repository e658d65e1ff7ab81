-- ===== src/MmMain/Heap.antt =====
-- `mm_core_init` of src/kernel/mm/mm_main.cppm: the page pool and the caches that take pages from it.
use closure_os.Base.{ℕ, ◌<◌, ◌≡◌, refl, subst, false, arith}
use closure_os.ListHead.{page_list, free_head}
use closure_os.ListHead.Ring.{IsRing-frame}
use closure_os.Kernel.{Page, Kernel, ok}
use closure_os.Pool.{can_merge}
use closure_os.Pool.Inv.{nodes, All-nodes}
use closure_os.HeapPool.{KHeapPool, set_page_pools, set_kmem_caches}
use closure_os.HeapPool
use closure_os.MmMain.{kobj_default_size, kobject_size_nr, nth, kheap_pool_init, mm_core_init}
use closure_os.MmMain.Solid.{IsSolid, IsBuddyMapped}
use closure_os.MmMain.Pages.{IsFilled, pages_pool_init_lem}
use closure_os.Cache.Fresh.{IsFresh}
use closure_os.MmMain.Caches.{init_caches-Caches}

-- The memory manager behind `mm_core_init`.
pub record IsStarted (page : ℕ → Page) (n pool : ℕ) (h : KHeapPool) (s : Kernel) : Type 0 where
  pub filled : IsFilled page n pool n s
  pub ready : (i : ℕ) → i < kobject_size_nr → IsFresh s i (nth kobj_default_size i) pool
  pub cache_nr : h.cache_nr ≡ kobject_size_nr
  pub caches : (i : ℕ) → h.caches i ≡ i
  pub sizes : (i : ℕ) → h.cache_obj_sizes i ≡ nth kobj_default_size i
  pub pool_nr : h.pool_nr ≡ 1
  pub pools : h.pools 0 ≡ pool

-- A memory with the same links of the pool, the same pages and the same locks.
IsFilled-frame :
    {page : ℕ → Page} {n pool i : ℕ} {s after : Kernel}
    → ((o : ℕ) → after.links (free_head pool o) ≡ s.links (free_head pool o))
    → ((p : ℕ) → after.links (page_list p) ≡ s.links (page_list p))
    → after.page ≡ s.page
    → after.pool_lock ≡ s.pool_lock
    → IsFilled page n pool i s
    → IsFilled page n pool i after
IsFilled-frame {page} {n} {pool} {i} {s} {after} heads lists pages locks fill = record {
  lists = fill.lists;
  pool_ok = record {
    ring = λ o small.
        IsRing-frame s.links after.links (free_head pool o) (nodes (fill.lists o))
          (fill.pool_ok.ring o small) (heads o)
          (All-nodes s.links after.links (fill.lists o) (λ x _. lists x));
    block = λ o p small m.
        let old = fill.pool_ok.block o p small m in
        record {
          aligned = old.aligned;
          headed = rw pages old.headed;
          freed = rw pages old.freed;
          sized = rw pages old.sized;
        };
    apart = fill.pool_ok.apart;
  };
  pages = fill.pages;
  listed = λ q can. fill.listed q (rw pages at can);
  normal = λ q c. rw pages (fill.normal q c);
  owned = λ q c. rw pages (fill.owned q c);
  coalesced = fill.coalesced;
  lock = rw locks fill.lock;
  ahead = λ q le. rw pages (fill.ahead q le);
}

-- If no page says that it heads a free block, if no block below the largest order has a used page in
-- its lower half while its first page and a page of its upper half are unused, and if the buddy of each
-- aligned block below the largest order that only has unused pages is mapped with the page database, then
-- `mm_core_init` returns without a page fault: the page pool is filled with exactly the unused pages of normal memory, and each of the
-- eleven caches is set up for its object size, empty, unlocked, with the page pool to take pages from.
pub mm_core_init_lem :
    (n pool : ℕ) (h : KHeapPool) (s : Kernel)
    → ((q : ℕ) → can_merge (s.page q) ≡ false)
    → IsSolid s.page n
    → IsBuddyMapped s.page n
    → (h' : KHeapPool) × (after : Kernel) × (mm_core_init n pool h s ≡ ok h' after)
      × IsStarted s.page n pool h' after
unfolding mm_core_init kheap_pool_init HeapPool.set_page_pools HeapPool.set_kmem_caches
mm_core_init_lem n pool h s fresh solid mapped =
    let (s₁, run, fill) = pages_pool_init_lem n pool s fresh solid mapped in
    let caches = init_caches-Caches kobj_default_size 0 pool s₁ in
    let out = kheap_pool_init pool h s₁ in
    (
      out.0,
      out.1,
      rw run refl,
      record {
        filled =
            IsFilled-frame
              (λ o.
                caches.links (free_head pool o)
                  (λ j le. ((λ e. ground arith), (λ e. ground arith))))
              (λ p. caches.links (page_list p) (λ j le. ((λ e. ground arith), (λ e. ground arith))))
              caches.page caches.locks fill;
        ready = λ i small.
            subst (λ (k : ℕ). IsFresh out.1 k (nth kobj_default_size i) pool) (omega arith)
              (caches.ready i small);
        cache_nr = refl;
        caches = λ i. refl;
        sizes = λ i. refl;
        pool_nr = refl;
        pools = refl;
      },
    )
