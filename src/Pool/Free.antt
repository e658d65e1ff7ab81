-- ===== src/Pool/Free.antt =====
-- `FreePages` gives a block back.
use closure_os.Base.{
  ℕ, ◌-◌, ◌%◌, ◌^◌, ◌<◌, ◌≡◌, refl, true, false, ◌↔◌, ◌⊎◌, inl, inr, ◌∙◌, ap, leb, some, arith,
}
use closure_os.Kernel.{Kernel, ok, locked, lock_pool_lem, unlock_pool}
use closure_os.Page.{get_page_buddy}
use closure_os.Page.Reinit.{reinit_page_lem}
use closure_os.Pool.{
  Block, can_merge, max_page_order, merge_blocks, put_block, free_block, free_pages,
}
use closure_os.Pool.Inv.{
  Free, has, Within, IsPool, IsClear, Covers, push, Covers-push, IsListed, IsAllListed,
}
use closure_os.Pool.Put.{put_block-IsPool, put_block-IsListedBut}
use closure_os.Pool.Merge.{block, IsMatched, IsMerged, merge_blocks-IsMerged}
use closure_os.Pool.Pair.{IsPair-of}
use closure_os.Pool.Alloc.{with_locks}

-- The pool behind a call of `FreePages` for the block of order `o` at `p`.
pub record Freed (s : Kernel) (pool : ℕ) (free : Free) (o p : ℕ) (after : Kernel) : Type 0 where
  pub lists : Free
  pub pool_ok : IsPool after pool lists
  pub pages : (q : ℕ) → Covers lists q ↔ (Covers free q ⊎ Within o p q)
  pub listed : IsAllListed after lists
  pub lock : after.pool_lock pool ≡ s.pool_lock pool
  -- the free block that the pages come to lie in, and the other free blocks
  pub whole : Block
  pub others : Free
  pub lists_are : lists ≡ push others whole.order whole.head
  pub fits : whole.order < max_page_order
  pub fewer : (i q : ℕ) → i < max_page_order → has q (others i) ≡ true → has q (free i) ≡ true
  pub types : (q : ℕ) → (after.page q).type ≡ (s.page q).type
  pub owners : (q : ℕ) → (after.page q).pool ≡ (s.page q).pool
  pub behind : (q : ℕ) → p < q → (Within whole.order whole.head q → ⊥) → after.page q ≡ s.page q
  pub stopped :
      (whole.order ≡ max_page_order - 1)
      ⊎ (can_merge (after.page (get_page_buddy whole.head whole.order)) ≡ false)

put_block-lock : (pool p o : ℕ) (s : Kernel) → (put_block pool p o s).pool_lock ≡ s.pool_lock
unfolding put_block
put_block-lock pool p o s = refl

put_block-type :
    (pool p o : ℕ) (s : Kernel) (q : ℕ) → ((put_block pool p o s).page q).type ≡ (s.page q).type
unfolding put_block
put_block-type pool p o s q = let at = reinit_page_lem p o true s.page q in ground arith

put_block-pool :
    (pool p o : ℕ) (s : Kernel) (q : ℕ) → ((put_block pool p o s).page q).pool ≡ (s.page q).pool
unfolding put_block
put_block-pool pool p o s q = let at = reinit_page_lem p o true s.page q in ground arith

put_block-outside :
    (pool p o : ℕ) (s : Kernel) (q : ℕ)
    → (Within o p q → ⊥)
    → (put_block pool p o s).page q ≡ s.page q
unfolding put_block
put_block-outside pool p o s q out = let at = reinit_page_lem p o true s.page q in ground arith

module _ {s : Kernel} {pool : ℕ} {free : Free} (inv : IsPool s pool free) (o p : ℕ)
    (small : o < max_page_order) (clear : IsClear free o p) (al : p % 2 ^ o ≡ 0)
    (listed : IsListed s free o p) (matched : IsMatched free o p) where
  free_block-Freed : Freed s pool free o p (free_block pool p o s)
  unfolding free_block
  free_block-Freed =
      let n = max_page_order - 1 - o in
      let out = merge_blocks n (block p o) s in
      let m : IsMerged s pool free o p out =
        merge_blocks-IsMerged n o p (omega arith) inv clear al listed matched in
      let b = out.0 in
      record {
        lists = push m.lists b.order b.head;
        pool_ok = put_block-IsPool m.pool_ok b.order b.head m.small m.clear m.aligned;
        pages = λ q.
            let here = Covers-push m.lists b.order b.head q m.small in
            ((λ c. (m.pages q).0 (here.0 c)), (λ c. here.1 ((m.pages q).1 c)));
        listed = λ q.
            put_block-IsListedBut (λ _. ⊥) pool b.order b.head out.1 m.lists m.small
              (λ r _ far. m.listed r far) q (λ e. e);
        lock = ap (λ (l : ℕ → ℕ). l pool) (put_block-lock pool b.head b.order out.1 ∙ m.locks);
        whole = b;
        others = m.lists;
        lists_are = refl;
        fits = m.small;
        fewer = m.fewer;
        types = λ q. put_block-type pool b.head b.order out.1 q ∙ m.types q;
        owners = λ q. put_block-pool pool b.head b.order out.1 q ∙ m.owners q;
        behind = λ q later out_of.
            put_block-outside pool b.head b.order out.1 q out_of ∙ m.behind q later;
        stopped = elim m.stopped [
          | inl largest ↦ inl largest
          | inr no_merge ↦ inr (
              ap can_merge (
                put_block-outside pool b.head b.order out.1 (get_page_buddy b.head b.order)
                  (IsPair-of b.order b.head m.aligned).apart)
              ∙ no_merge)
        ];
      }

-- `FreePages` of a block that is aligned and clear of the free blocks, at a pool whose lock is free,
-- returns with the lock free again. If each page outside the block that says it heads a free block is on
-- one of the pool's lists, and if the buddy is never a smaller free block, at any order from the block's
-- own up to the one below the largest, then the pool is well-formed behind the call, its free blocks have
-- exactly the pages that they had and those of the block, and each page that says it heads a free block
-- is on a list.
pub free_pages_lem :
    {s : Kernel} {pool : ℕ} {free : Free}
    → IsPool s pool free
    → s.pool_lock pool ≡ 0
    → (o p : ℕ) → o < max_page_order
    → IsClear free o p
    → p % 2 ^ o ≡ 0
    → IsListed s free o p
    → IsMatched free o p
    → (after : Kernel) × (free_pages pool (some p) o s ≡ ok tt after) × Freed s pool free o p after
unfolding free_pages unlock_pool
free_pages_lem {s} {pool} {free} inv unlocked o p small clear al listed matched =
    let f : Freed (locked pool s) pool free o p (free_block pool p o (locked pool s)) =
      free_block-Freed (with_locks _ inv) o p small clear al listed matched in
    let fits : leb max_page_order o ≡ false = ground arith in
    (
      unlock_pool pool (free_block pool p o (locked pool s)),
      rw (fits, lock_pool_lem pool s unlocked),
      record {
        lists = f.lists;
        pool_ok = with_locks _ f.pool_ok;
        pages = f.pages;
        listed = f.listed;
        lock = ground arith;
        whole = f.whole;
        others = f.others;
        lists_are = f.lists_are;
        fits = f.fits;
        fewer = f.fewer;
        types = f.types;
        owners = f.owners;
        behind = f.behind;
        stopped = f.stopped;
      },
    )
