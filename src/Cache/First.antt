-- ===== src/Cache/First.antt =====
-- `KMemCache::Malloc` of a cache that has no object yet: a block comes from the page pool, is sliced,
-- and its last object is handed out.
use closure_os.Base.{
  ℕ, suc, ◌+◌, ◌-◌, ◌*◌, ◌/◌, ◌^◌, ◌≤◌, ◌<◌, ◌≡◌, ◌≢◌, refl, ◌∙◌, ap, sym, subst, true, [], ◌⊎◌,
  inl, inr, ◌↔◌, Option, none, some, arith,
}
use native.Mathlib.Nat.{one-le-pow}
use closure_os.Kernel.{KMemCache, Kernel, Run, ok, update_self}
use closure_os.Page.{page_to_virt}
use closure_os.Pool.{max_page_order, alloc_pages}
use closure_os.Pool.Inv.{Free, Within, IsPool, IsClear, Covers}
use closure_os.Pool.Alloc.{NoneLeft, Allocated, alloc_pages_lem}
use closure_os.Pool.Frame.{Keeps, alloc_pages-Keeps}
use closure_os.Cache.{
  internal_page_alloc, alloc_from, internal_obj_alloc, malloc, make_current, unlock_cache,
  cache_order, on_cache,
}
use closure_os.Cache.Fresh.{IsFresh}
use closure_os.Cache.Geometry.{cache_order-fits, quotient_bounds, block_size-exact}
use closure_os.Cache.Slice.{IsChain, objects}
use closure_os.Cache.Refill.{
  IsServed, page_obj_slicing_lem, served, served-IsServed, second_round, alloc_from-exhausted,
  alloc_from-found,
}
use closure_os.Cache.Rounds.{refill, first_round, IsMapped, block_fits, IsPool-frame}
use closure_os.Cache.Reuse.{lock_taken, lock_cache_lem}

-- How `Malloc` of the cache `k`, which takes blocks of the order `order` from `pool`, ends when the
-- pool has a block: its last object is handed out, and `left` others stay in the cache.
pub record IsFirst (s : Kernel) (k sz pool order : ℕ) (free : Free) (run : Run ℕ) : Type 0 where
  pub page : ℕ
  pub left : ℕ
  pub after : Kernel
  pub lists : Free
  pub run_eq : run ≡ ok (page_to_virt page + left * sz) after
  pub not_null : 0 < page_to_virt page + left * sz
  pub count : suc left ≡ 4096 * 2 ^ order / sz
  pub pool_ok : IsPool after pool lists
  pub clear : IsClear lists order page
  pub pages : (q : ℕ) → (Covers lists q ⊎ Within order page q) ↔ Covers free q
  pub current : (after.cache k).current ≡ some page
  pub chain : IsChain after.words (after.cache k).freelist (objects (page_to_virt page) sz left)
  pub in_page : (after.page page).obj_nr ≡ left
  pub owner : (after.page page).kc ≡ some k
  pub other_caches : (j : ℕ) → k ≢ j → after.cache j ≡ s.cache j
  pub lock : (after.cache k).lock ≡ 0
  pub pool_lock : after.pool_lock pool ≡ 0

-- How it ends when the pool has none.
pub record IsOutOfMemory (s : Kernel) (k pool order : ℕ) (free : Free) (run : Run ℕ) : Type 0 where
  pub empty : (o : ℕ) → order ≤ o → o < max_page_order → free o ≡ []
  pub after : Kernel
  pub run_eq : run ≡ ok 0 after
  pub same_pages : after.page ≡ s.page
  pub lock : (after.cache k).lock ≡ 0
  pub pool_lock : after.pool_lock pool ≡ 0

module _ {s : Kernel} {k sz pool : ℕ} {free : Free} (fresh : IsFresh s k sz pool)
    (inv : IsPool s pool free) (unlocked : s.pool_lock pool ≡ 0) (mapped : IsMapped free)
    (pos : 0 < sz) (small : cache_order sz < max_page_order) (fuel : ℕ) where
  abbrev order : ℕ
  order = cache_order sz

  abbrev taken : Kernel
  taken = lock_taken k s

  taken-cache : taken.cache k ≡ record (s.cache k) { lock = 1 }
  taken-cache = update_self s.cache k _

  malloc_lem :
      (out : ℕ) (after : Kernel)
      → internal_obj_alloc (suc (suc fuel)) k taken ≡ ok out after
      → malloc (suc (suc fuel)) k s ≡ ok out (unlock_cache k after)
  unfolding malloc
  malloc_lem out after run = rw (lock_cache_lem k s fresh.lock, run) refl

  refilled :
      (new_page : Option ℕ) (after : Kernel)
      → internal_page_alloc k taken ≡ ok new_page after
      → internal_obj_alloc (suc (suc fuel)) k taken ≡ refill (suc fuel) k new_page after
  refilled new_page after run =
      first_round (suc fuel) k taken (rw taken-cache fresh.current) (rw taken-cache fresh.freelist)
        fresh.partial
      ∙ rw run refl

  from_pool :
      (new_page : Option ℕ) (after : Kernel)
      → alloc_from 16 0 order (taken.cache k).pools taken ≡ ok new_page after
      → internal_page_alloc k taken ≡ ok new_page after
  unfolding internal_page_alloc
  from_pool new_page after run =
      let same : (taken.cache k).order ≡ order = rw taken-cache fresh.order in
      ap (λ (o : ℕ). alloc_from 16 0 o (taken.cache k).pools taken) same ∙ run

  first : (taken.cache k).pools 0 ≡ some pool
  first = rw taken-cache fresh.pool_first

  others : (i : ℕ) → 0 < i → i < 16 → (taken.cache k).pools i ≡ none
  others i above below = rw taken-cache (fresh.pool_only i above below)

  exhausted :
      NoneLeft taken pool free order (alloc_pages pool order taken)
      → IsOutOfMemory s k pool order free (malloc (suc (suc fuel)) k s)
  unfolding unlock_cache
  exhausted e =
      let run = from_pool none e.after (
        alloc_from-exhausted pool order (taken.cache k).pools taken e.after first others
          e.run_eq) in
      let idle = on_cache k (λ c. record c { current = none }) e.after in
      record {
        empty = e.empty;
        after = unlock_cache k idle;
        run_eq = malloc_lem 0 idle (refilled none e.after run);
        same_pages = e.same_pages;
        lock = ground arith;
        pool_lock = e.lock ∙ unlocked;
      }

  -- The objects of a block.
  objs : ℕ
  objs = 4096 * 2 ^ order / sz

  bounds : (1 ≤ objs) × (objs * sz ≤ 4096 * 2 ^ order)
  unfolding objs
  bounds = quotient_bounds (4096 * 2 ^ order) sz pos (cache_order-fits sz)

  module _ (e : Allocated taken pool free order (alloc_pages pool order taken)) where
    same : Keeps taken (ok (some e.head) e.after)
    same =
        subst (λ (r : Run (Option ℕ)). Keeps taken r) e.run_eq (alloc_pages-Keeps pool order taken)

    headed : (e.after.page e.head).is_head ≡ true
    headed =
        subst (λ (p : ℕ). (e.after.page p).is_head ≡ true) (omega arith)
          (e.set_up 0 (one-le-pow order 2 (omega arith))).headed

    in_map : e.head + 2 ^ order ≤ 2 ^ 34
    in_map =
        let whole = one-le-pow order 2 (omega arith) in
        let last =
          mapped (e.head + 2 ^ order - 1)
            ((e.pages (e.head + 2 ^ order - 1)).0 (inr (omega arith))) in
        omega (arith, last, whole)

    cached : e.after.cache k ≡ record (s.cache k) { lock = 1 }
    cached = ap (λ (c : ℕ → KMemCache). c k) same.0 ∙ taken-cache

    left : ℕ
    left = objs - 1

    all_objs : suc left ≡ objs
    unfolding left
    all_objs = omega (arith, bounds.0)

    counted_objs : (e.after.cache k).page_obj_nr ≡ suc left
    unfolding objs
    counted_objs =
        let exact = block_size-exact order (omega arith) in
        rw cached (fresh.page_obj_nr ∙ rw exact (sym all_objs))

    sized : (e.after.cache k).obj_sz ≡ sz
    sized = rw cached fresh.obj_sz

    placed : (0 < page_to_virt e.head) × (page_to_virt e.head + suc left * sz < 2 ^ 64)
    placed =
        let fits : suc left * sz ≤ 4096 * 2 ^ order = rw all_objs bounds.1 in
        block_fits order e.head (suc left) sz small in_map fits

    abbrev out : Kernel
    out = served k e.head left sz e.after counted_objs sized headed pos placed.0 placed.1

    is_served : IsServed e.after k e.head left sz out
    is_served =
        served-IsServed k e.head left sz e.after counted_objs sized headed pos placed.0 placed.1

    rounds : internal_obj_alloc (suc (suc fuel)) k taken ≡ ok (page_to_virt e.head + left * sz) out
    rounds =
        refilled (some e.head) e.after (
          from_pool (some e.head) e.after (
            alloc_from-found pool order (taken.cache k).pools taken e.after first others e.head
              e.run_eq))
        ∙ ap (λ (t : Kernel). internal_obj_alloc (suc fuel) k (make_current k e.head t))
            (page_obj_slicing_lem k e.head left sz e.after counted_objs sized headed pos placed.0
              placed.1)
        ∙ second_round k e.head left sz e.after counted_objs sized headed pos placed.0 placed.1 fuel

    found : IsFirst s k sz pool order free (malloc (suc (suc fuel)) k s)
    unfolding unlock_cache objs
    found = record {
      page = e.head;
      left = left;
      after = unlock_cache k out;
      lists = e.lists;
      run_eq = malloc_lem _ out rounds;
      not_null = omega (arith, placed.0);
      count = all_objs;
      pool_ok =
          IsPool-frame order e.head (unlock_cache k out) is_served.links is_served.others e.clear
            e.pool_ok;
      clear = e.clear;
      pages = e.pages;
      current = ground (arith, is_served.current);
      chain = rw (update_self out.cache k _) is_served.chain;
      in_page = is_served.count;
      owner = is_served.owner;
      other_caches = λ j ne.
          let kept = is_served.other_caches j ne in
          let old : e.after.cache j ≡ taken.cache j = ap (λ (c : ℕ → KMemCache). c j) same.0 in
          ground arith;
      lock = ground arith;
      pool_lock = ap (λ (l : ℕ → ℕ). l pool) is_served.locks ∙ e.lock ∙ unlocked;
    }

-- From an empty cache that takes its blocks from one well-formed pool with a free lock, whose pages
-- lie below page 2 ^ 34, `Malloc` returns within two rounds. If the pool has no block of the cache's
-- order or a larger one, the result is null and all pages are as before. Otherwise the result is the
-- last object of a block that is clear of the free blocks; the cache has the other objects of the
-- block in its free list, and the page says how many these are and whose they are. Both locks are
-- free again, and the free pages are the ones before less those of the block.
pub first_malloc_lem :
    {s : Kernel} {k sz pool : ℕ} {free : Free}
    → IsFresh s k sz pool
    → IsPool s pool free
    → s.pool_lock pool ≡ 0
    → IsMapped free
    → 0 < sz
    → cache_order sz < max_page_order
    → (fuel : ℕ)
    → IsOutOfMemory s k pool (cache_order sz) free (malloc (suc (suc fuel)) k s)
      ⊎ IsFirst s k sz pool (cache_order sz) free (malloc (suc (suc fuel)) k s)
first_malloc_lem {s} {k} {sz} {pool} {free} fresh inv unlocked mapped pos small fuel =
    let inv₁ : IsPool (lock_taken k s) pool free = record {
      ring = inv.ring;
      block = inv.block;
      apart = inv.apart;
    } in
    elim (alloc_pages_lem inv₁ unlocked (cache_order sz)) [
      | inl e ↦ inl (exhausted fresh inv unlocked mapped pos small fuel e)
      | inr e ↦ inr (found fresh inv unlocked mapped pos small fuel e)
    ]
