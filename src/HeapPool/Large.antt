-- ===== src/HeapPool/Large.antt =====
-- `KHeapPool::__malloc_pools` on one page pool.
use closure_os.Base.{
  ℕ, ◌*◌, ◌%◌, ◌^◌, ◌≤◌, ◌<◌, ◌≡◌, refl, ap, sym, subst, ◌∙◌, ◌↔◌, ◌⊎◌, inl, inr, true, Option,
  none, some, [], arith,
}
use native.Mathlib.Nat.{one-le-pow}
use closure_os.Kernel.{Kernel, Run, ok, stuck}
use closure_os.Page.{page_to_virt}
use closure_os.Pool.{max_page_order, alloc_pages}
use closure_os.Pool.Inv.{Free, Within, IsPool, IsClear, Covers}
use closure_os.Pool.Alloc.{NoneLeft, Allocated, alloc_pages_lem}
use closure_os.Cache.Refill.{counted, get_page-head}
use closure_os.Cache.Rounds.{IsPool-frame}
use closure_os.HeapPool.{KHeapPool, malloc_from, malloc_pools}
use closure_os.HeapPool.Order.{order_for_lem}

-- How a request for `size` bytes ends that a block of the order `order` serves.
pub record IsLarge (s : Kernel) (size pool order : ℕ) (free : Free) (run : Run ℕ) : Type 0 where
  pub page : ℕ
  pub after : Kernel
  pub lists : Free
  pub run_eq : run ≡ ok (page_to_virt page) after
  pub pool_ok : IsPool after pool lists
  pub clear : IsClear lists order page
  pub aligned : page % 2 ^ order ≡ 0
  pub pages : (q : ℕ) → (Covers lists q ⊎ Within order page q) ↔ Covers free q
  pub headed : (after.page page).is_head ≡ true
  pub lock : after.pool_lock pool ≡ s.pool_lock pool

-- Or that the pool has no block for.
pub record IsRefused (s : Kernel) (pool order : ℕ) (free : Free) (run : Run ℕ) : Type 0 where
  pub empty : (o : ℕ) → order ≤ o → o < max_page_order → free o ≡ []
  pub after : Kernel
  pub run_eq : run ≡ ok 0 after
  pub same_pages : after.page ≡ s.page
  pub lock : after.pool_lock pool ≡ s.pool_lock pool

module _ {s : Kernel} {pool : ℕ} {free : Free} (h : KHeapPool) (one : h.pool_nr ≡ 1)
    (first : h.pools 0 ≡ pool) (order : ℕ) where
  refused :
      NoneLeft s pool free order (alloc_pages pool order s)
      → IsRefused s pool order free (malloc_from 1 0 h order s)
  unfolding malloc_from
  refused e = record {
    empty = e.empty;
    after = e.after;
    run_eq = rw (first, e.run_eq) refl;
    same_pages = e.same_pages;
    lock = e.lock;
  }

  served :
      (size : ℕ)
      → Allocated s pool free order (alloc_pages pool order s)
      → IsLarge s size pool order free (malloc_from 1 0 h order s)
  unfolding malloc_from
  served size e =
      let headed : (e.after.page e.head).is_head ≡ true =
        subst (λ (p : ℕ). (e.after.page p).is_head ≡ true) (omega arith)
          (e.set_up 0 (one-le-pow order 2 (omega arith))).headed in
      let count = get_page-head e.head e.after headed in
      record {
        page = e.head;
        after = counted e.head e.after;
        lists = e.lists;
        run_eq = rw (first, e.run_eq) (ap (λ (t : Kernel). ok (page_to_virt e.head) t) count);
        pool_ok =
            IsPool-frame order e.head (counted e.head e.after) refl (λ q ne. ground arith) e.clear
              e.pool_ok;
        clear = e.clear;
        aligned = e.aligned;
        pages = e.pages;
        headed = ground arith;
        lock = e.lock;
      }

-- With one page pool that is well-formed and unlocked, a request of at least one byte and below
-- 2 ^ 43 bytes gets the smallest block that holds it, or null where the pool has no block of that
-- order or a larger one.
pub malloc_pools_lem :
    {s : Kernel} {pool : ℕ} {free : Free} (h : KHeapPool)
    → h.pool_nr ≡ 1
    → h.pools 0 ≡ pool
    → IsPool s pool free
    → s.pool_lock pool ≡ 0
    → (size : ℕ) → 0 < size
    → size < 2 ^ 43
    → (order : ℕ) × (size ≤ 2 ^ order * 4096)
      × ((2 ^ order * 4096 < 2 * size) ⊎ (order ≡ 0))
      × (IsRefused s pool order free (malloc_pools h size s)
          ⊎ IsLarge s size pool order free (malloc_pools h size s))
unfolding malloc_pools
malloc_pools_lem {s} {pool} {free} h one first inv unlocked size pos below =
    let (order, run, holds, least) = order_for_lem size pos below in
    let pools : malloc_pools h size s ≡ malloc_from 1 0 h order s =
      ap
        (λ (o : Option ℕ). elim o as (λ _. Run ℕ) [
          | none ↦ stuck
          | some n ↦ malloc_from h.pool_nr 0 h n s
        ])
        run
      ∙ ap (λ (n : ℕ). malloc_from n 0 h order s) one in
    let ends : IsRefused s pool order free (malloc_from 1 0 h order s)
        ⊎ IsLarge s size pool order free (malloc_from 1 0 h order s) =
      elim (alloc_pages_lem inv unlocked order) [
        | inl e ↦ inl (refused h one first order e)
        | inr e ↦ inr (served h one first order size e)
      ] in
    (
      order,
      holds,
      least,
      subst (λ (r : Run ℕ). IsRefused s pool order free r ⊎ IsLarge s size pool order free r)
          (sym pools) ends,
    )
