-- ===== src/Pool/Alloc.antt =====
-- `__alloc_page_direct` and `AllocPages` hand out a block of the wanted order, and lose no page.
use closure_os.Base.{
  ℕ, ◌+◌, ◌-◌, ◌%◌, ◌^◌, ◌≤◌, ◌<◌, ◌≡◌, refl, true, false, ◌↔◌, ◌⊎◌, inl, inr, ap, ◌==◌, leb,
  Bool-cases, Option, none, some, [], arith,
}
use closure_os.ListHead.{page_list, list_del}
use closure_os.Kernel.{Page, Kernel, Run, ok, on_links, locked, lock_pool_lem, unlock_pool}
use closure_os.Page.{reinit_page}
use closure_os.Page.Reinit.{reinit_page_lem}
use closure_os.Pool.{max_page_order, Block, alloc_page_direct, hand_out, split_block, alloc_pages}
use closure_os.Pool.Inv.{Free, has, Within, IsPool, IsClear, Covers, IsAllListed}
use closure_os.Pool.Put.{reinit-IsPool, reinit-IsAllListed}
use closure_os.Pool.Take.{take-IsPool, take-IsClear, Covers-pull, take-IsListed}
use closure_os.Pool.Find.{Found, Exhausted, find_block_lem}
use closure_os.Pool.Split.{split_block-IsSplit}

-- How the pages of a block stand behind its allocation.
pub record IsTaken (page : ℕ → Page) (order p d : ℕ) : Type 0 where
  pub sized : (page (p + d)).order ≡ order
  pub taken : (page (p + d)).is_free ≡ false
  pub headed : (page (p + d)).is_head ≡ (d == 0)

-- No list has a block that is large enough; the lists and the pages are as before.
pub record NoneLeft (s : Kernel) (pool : ℕ) (free : Free) (order : ℕ) (run : Run (Option ℕ))
    : Type 0 where
  pub empty : (o : ℕ) → order ≤ o → o < max_page_order → free o ≡ []
  pub after : Kernel
  pub run_eq : run ≡ ok none after
  pub same_links : after.links ≡ s.links
  pub same_pages : after.page ≡ s.page
  pub lock : after.pool_lock pool ≡ s.pool_lock pool

-- The block at `head` is handed out: it is aligned, lies in no free block, and with the free blocks
-- that are left it has exactly the pages that were free before. Pages that say they head a free block
-- are still on the lists if they were before.
pub record Allocated (s : Kernel) (pool : ℕ) (free : Free) (order : ℕ) (run : Run (Option ℕ))
    : Type 0 where
  pub head : ℕ
  pub after : Kernel
  pub lists : Free
  pub run_eq : run ≡ ok (some head) after
  pub pool_ok : IsPool after pool lists
  pub clear : IsClear lists order head
  pub aligned : head % 2 ^ order ≡ 0
  pub pages : (q : ℕ) → (Covers lists q ⊎ Within order head q) ↔ Covers free q
  pub listed : IsAllListed s free → IsAllListed after lists
  pub set_up : (d : ℕ) → d < 2 ^ order → IsTaken after.page order head d
  pub lock : after.pool_lock pool ≡ s.pool_lock pool

IsTaken-reinit :
    (page : ℕ → Page) (order p d : ℕ)
    → order < max_page_order
    → d < 2 ^ order
    → IsTaken (reinit_page p order false page) order p d
IsTaken-reinit page order p d ho hd =
    let at = reinit_page_lem p order false page (p + d) in
    record { sized = ground arith; taken = ground arith; headed = ground arith }

module _ {s : Kernel} {pool : ℕ} {free : Free} (inv : IsPool s pool free) (order : ℕ)
    (ho : order < max_page_order) where
  hand_out-Allocated :
      (run : Run (Option Block))
      → (f : Found s pool free order run)
      → Allocated s pool free order (
          hand_out pool order
            (some (record { head = f.head; order = f.order }))
            (on_links (list_del (page_list f.head)) s))
  unfolding hand_out
  hand_out-Allocated run f =
      let taken = take-IsPool inv f.order f.head [] f.rest f.small f.front in
      let clear = take-IsClear inv f.order f.head [] f.rest f.small f.front in
      let listed : has f.head (free f.order) ≡ true = rw f.front (ground arith) in
      let old = inv.block f.order f.head f.small listed in
      let n = f.order - order in
      let e : f.order - n ≡ order = omega (arith, f.above) in
      let done =
        rw e at
          (split_block-IsSplit n f.head f.order taken f.small (omega arith) old.aligned clear) in
      record {
        head = f.head;
        after = _;
        lists = done.lists;
        run_eq = refl;
        pool_ok = reinit-IsPool done.pool_ok order f.head ho done.clear false;
        clear = done.clear;
        aligned = done.aligned;
        pages = λ q.
            let here = Covers-pull inv f.order f.head [] f.rest f.small f.front q in
            ((λ c. here.0 ((done.pages q).0 c)), (λ c. (done.pages q).1 (here.1 c)));
        listed = λ all.
            reinit-IsAllListed order f.head
              (split_block n pool f.head f.order (on_links (list_del (page_list f.head)) s))
              done.lists
              (done.listed (take-IsListed inv f.order f.head [] f.rest f.small f.front all));
        set_up = λ d hd. IsTaken-reinit _ order f.head d ho hd;
        lock = ap (λ (l : ℕ → ℕ). l pool) done.locks;
      }

  pub alloc_page_direct_lem :
      Exhausted s free order (alloc_page_direct pool order s)
      ⊎ Allocated s pool free order (alloc_page_direct pool order s)
  unfolding alloc_page_direct
  alloc_page_direct_lem = elim (find_block_lem inv (max_page_order - order) order (omega arith)) [
    | inl none_left ↦ inl (record { empty = none_left.empty; run_eq = rw none_left.run_eq })
    | inr f ↦ inr (rw f.run_eq (hand_out-Allocated _ f))
  ]

pub with_locks :
    {s : Kernel} {pool : ℕ} {free : Free} (locks : ℕ → ℕ)
    → IsPool s pool free
    → IsPool (record s { pool_lock = locks }) pool free
with_locks locks inv = record { ring = inv.ring; block = inv.block; apart = inv.apart }

too_large :
    {s : Kernel} {pool : ℕ} {free : Free} (order : ℕ)
    → leb max_page_order order ≡ true
    → NoneLeft s pool free order (alloc_pages pool order s)
unfolding alloc_pages
too_large {s} order big = record {
  empty = λ o h k. absurd (ground arith);
  after = s;
  run_eq = rw big;
  same_links = refl;
  same_pages = refl;
  lock = refl;
}

module _ {s : Kernel} {pool : ℕ} {free : Free} (unlocked : s.pool_lock pool ≡ 0) (order : ℕ)
    (small : leb max_page_order order ≡ false) where
  -- Both tries find nothing.
  exhausted :
      Exhausted (locked pool s) free order (alloc_page_direct pool order (locked pool s))
      → NoneLeft s pool free order (alloc_pages pool order s)
  unfolding alloc_pages unlock_pool
  exhausted ex = record {
    empty = ex.empty;
    after = unlock_pool pool (locked pool s);
    run_eq = rw (small, lock_pool_lem pool s unlocked, ex.run_eq, ex.run_eq);
    same_links = refl;
    same_pages = refl;
    lock = ground arith;
  }

  -- The first try finds a block.
  found :
      Allocated (locked pool s) pool free order (alloc_page_direct pool order (locked pool s))
      → Allocated s pool free order (alloc_pages pool order s)
  unfolding alloc_pages unlock_pool
  found a = record {
    head = a.head;
    after = unlock_pool pool a.after;
    lists = a.lists;
    run_eq = rw (small, lock_pool_lem pool s unlocked, a.run_eq);
    pool_ok = with_locks _ a.pool_ok;
    clear = a.clear;
    aligned = a.aligned;
    pages = a.pages;
    listed = a.listed;
    set_up = a.set_up;
    lock = ground arith;
  }

-- From a well-formed pool whose lock is free, `AllocPages` of any order returns, with the lock free
-- again. Either there is no free block of the order or a larger one, all of it is as before and the
-- result is null; or the result is an aligned block that is clear of all free blocks, the pool is
-- well-formed, and the pages of the block and of the free blocks are the pages that were free. In
-- the block only the first page is a head, all pages have the block's order, and none is free.
pub alloc_pages_lem :
    {s : Kernel} {pool : ℕ} {free : Free}
    → IsPool s pool free
    → s.pool_lock pool ≡ 0
    → (order : ℕ)
    → NoneLeft s pool free order (alloc_pages pool order s)
      ⊎ Allocated s pool free order (alloc_pages pool order s)
alloc_pages_lem {s} {pool} {free} inv unlocked order =
    elim (Bool-cases (leb max_page_order order)) [
      | inl big ↦ inl (too_large order big)
      | inr small ↦ elim (alloc_page_direct_lem (with_locks _ inv) order (ground arith)) [
        | inl ex ↦ inl (exhausted unlocked order small ex)
        | inr a ↦ inr (found unlocked order small a)
      ]
    ]
