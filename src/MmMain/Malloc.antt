-- ===== src/MmMain/Malloc.antt =====
-- The first `KHeapPool::Malloc` behind `mm_core_init`.
use closure_os.Base.{
  All, List, [], arith, inl, inr, length, subst, suc, sym, zero, ℕ, ◌%◌, ◌*◌, ◌+◌, ◌<◌, ◌^◌, ◌∷◌,
  ◌≡◌, ◌≤◌, ◌⊎◌,
}
use closure_os.Kernel.{Page, Kernel, Run}
use closure_os.Page.{page_to_virt}
use closure_os.Pool.Inv.{Free, Within}
use closure_os.Pool.Coalesce.{block_at_least}
use closure_os.MmMain.Solid.{IsUnused}
use closure_os.Cache.{cache_order}
use closure_os.Cache.First.{IsFirst, first_malloc_lem}
use closure_os.HeapPool.{KHeapPool, malloc, malloc_pools}
use closure_os.HeapPool.Large.{IsRefused, IsLarge, malloc_pools_lem}
use closure_os.HeapPool.Choice.{malloc-malloc_pools, malloc-IsChoice}
use closure_os.MmMain.{kobj_default_size, kobject_size_nr, nth}
use closure_os.MmMain.Heap.{IsStarted}

nth-All : (P : ℕ → Type 0) (xs : List ℕ) → All P xs → (i : ℕ) → i < length xs → P (nth xs i)
nth-All P [] all i small = absurd (omega arith)
nth-All P (x ∷ xs) all zero small = all.0
nth-All P (x ∷ xs) all (suc i) small = nth-All P xs all.1 i (omega arith)

sizes_bounded :
    (i : ℕ) → i < kobject_size_nr → (0 < nth kobj_default_size i) × (nth kobj_default_size i ≤ 8192)
sizes_bounded = nth-All (λ (sz : ℕ). (0 < sz) × (sz ≤ 8192)) kobj_default_size (ground arith)

cache_order_bounded : (sz : ℕ) → sz ≤ 8192 → cache_order sz ≤ 3
unfolding cache_order
cache_order_bounded sz le = ground arith

-- The first call of `Malloc` for `size` bytes is served from the smallest cache that suits it.
pub record IsServing (s : Kernel) (size pool : ℕ) (free : Free) (run : Run ℕ) : Type 0 where
  pub slot : ℕ
  pub inside : slot < kobject_size_nr
  pub holds : size ≤ nth kobj_default_size slot
  pub smaller : (l : ℕ) → l < slot → nth kobj_default_size l < size
  pub served :
      IsFirst s slot
        (nth kobj_default_size slot)
        pool
        (cache_order (nth kobj_default_size slot))
        free
        run

-- Behind `mm_core_init` on a memory below page 2 ^ 34 with eight unused pages in line, aligned, the
-- first call of `Malloc` for at most 8192 bytes returns an object that is not null: the last one of a
-- block that was free, in the smallest size that holds the request. The cache of that size keeps the
-- other objects of the block, and the page pool stays well-formed without the block.
pub first_kmalloc_lem :
    {page : ℕ → Page} {n pool : ℕ} {h : KHeapPool} {s : Kernel}
    (started : IsStarted page n pool h s)
    → n ≤ 2 ^ 34
    → (w : ℕ) → w % 8 ≡ 0
    → ((q : ℕ) → Within 3 w q → IsUnused page n q)
    → (size fuel : ℕ) → size ≤ 8192
    → IsServing s size pool started.filled.lists (malloc (suc (suc fuel)) h size s)
first_kmalloc_lem {page} {n} {pool} {h} {s} started low w aligned unused size fuel fits =
    let fill = started.filled in
    let (block, large) =
      block_at_least fill.pool_ok fill.coalesced 3 w (omega arith) aligned
        (λ q i. (fill.pages q).1 ((unused q i).0, unused q i)) in
    let (j, choice, gives) =
      malloc-IsChoice (suc (suc fuel)) h size s 10 started.cache_nr (rw (started.sizes 10) fits) in
    let sz = nth kobj_default_size j in
    let inside : j < kobject_size_nr = omega (arith, choice.inside) in
    let (pos, most) = sizes_bounded j inside in
    let small = cache_order_bounded sz most in
    elim (first_malloc_lem (started.ready j inside) fill.pool_ok fill.lock
      (λ p c. omega (arith, ((fill.pages p).0 c).1.0)) pos (omega arith) fuel) [
        | inl none_left ↦
            let empty = none_left.empty block.order (omega arith) block.small in
            let listed = block.listed in absurd (ground arith)
        | inr f ↦ record {
          slot = j;
          inside = inside;
          holds = rw (started.sizes j) at choice.holds;
          smaller = λ l less. rw (started.sizes l) at (choice.smaller l (omega arith) less);
          served = record {
            page = f.page;
            left = f.left;
            after = f.after;
            lists = f.lists;
            run_eq =
                gives (page_to_virt f.page + f.left * sz) f.after f.not_null
                  (rw (started.caches j) f.run_eq);
            not_null = f.not_null;
            count = f.count;
            pool_ok = f.pool_ok;
            clear = f.clear;
            pages = f.pages;
            current = f.current;
            chain = f.chain;
            in_page = f.in_page;
            owner = f.owner;
            other_caches = f.other_caches;
            lock = f.lock;
            pool_lock = f.pool_lock;
          };
        }
      ]

-- Behind `mm_core_init`, a call of `Malloc` for more than 8192 bytes and less than 2 ^ 43 goes to the
-- page pool and returns, the lock free again: with the first page of the smallest block that holds the
-- request, a block that was free and lies in no free block any more, or with null where the pool has
-- no block of that order or a larger one.
pub large_kmalloc_lem :
    {page : ℕ → Page} {n pool : ℕ} {h : KHeapPool} {s : Kernel}
    (started : IsStarted page n pool h s) (size fuel : ℕ)
    → 8192 < size
    → size < 2 ^ 43
    → (order : ℕ) × (size ≤ 2 ^ order * 4096)
      × ((2 ^ order * 4096 < 2 * size) ⊎ (order ≡ 0))
      × (IsRefused s pool order started.filled.lists (malloc fuel h size s)
          ⊎ IsLarge s size pool order started.filled.lists (malloc fuel h size s))
large_kmalloc_lem {pool} {h} {s} started size fuel large below =
    let fill = started.filled in
    let too_large : malloc fuel h size s ≡ malloc_pools h size s =
      malloc-malloc_pools fuel h size s (λ j less.
        let inside : j < kobject_size_nr = omega (arith, started.cache_nr) in
        rw (started.sizes j) (omega (arith, (sizes_bounded j inside).1))) in
    let (order, holds, least, ends) =
      malloc_pools_lem h started.pool_nr started.pools fill.pool_ok fill.lock size (omega arith)
        below in
    (
      order,
      holds,
      least,
      subst
          (λ (r : Run ℕ).
            IsRefused s pool order fill.lists r ⊎ IsLarge s size pool order fill.lists r)
          (sym too_large) ends,
    )
