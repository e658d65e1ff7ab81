-- ===== src/Pool/Overlap.antt =====
-- What `FreePages` does when the buddy is a free block of another order.
use closure_os.Base.{
  ℕ, zero, suc, ◌+◌, ◌-◌, ◌%◌, ◌^◌, ◌<◌, ◌≡◌, true, false, ltb, if◌then◌else◌, Bool-cases, inl, inr,
  arith,
}
use native.Mathlib.Nat.{pow-suc}
use closure_os.Kernel.{Kernel}
use closure_os.Page.{get_page_buddy}
use closure_os.Page.Reinit.{reinit_page_lem}
use closure_os.Page.Convert.{get_page_buddy-upper}
use closure_os.Pool.{max_page_order, can_merge, absorb, merge_blocks, put_block, free_block}
use closure_os.Pool.Inv.{Within}
use closure_os.Pool.Merge.{block}
use closure_os.Pool.Pair.{IsPair, IsPair-of}

-- Pages that the loop has reached stay in its block.
merge_blocks-Within :
    (n o p : ℕ) (s : Kernel) (q : ℕ)
    → p % 2 ^ o ≡ 0
    → Within o p q
    → Within (merge_blocks n (block p o) s).0.order (merge_blocks n (block p o) s).0.head q
unfolding merge_blocks
merge_blocks-Within zero o p s q al w = w
merge_blocks-Within (suc n) o p s q al w =
    elim (Bool-cases (can_merge (s.page (get_page_buddy p o)))) [
      | inl can ↦
          let buddy = get_page_buddy p o in
          let low = (if ltb buddy p then buddy else p) in
          let pair : IsPair o p buddy low = IsPair-of o p al in
          let next : o + 1 ≡ suc o = omega arith in
          rw (can, next)
            (merge_blocks-Within n (suc o) low (absorb p buddy s) q pair.aligned
              ((pair.both q).1 (inl w)))
      | inr stop ↦ rw stop w
    ]

first_round :
    (n o p : ℕ) (s : Kernel) (q : ℕ)
    → p % 2 ^ suc o ≡ 0
    → can_merge (s.page (p + 2 ^ o)) ≡ true
    → Within o (p + 2 ^ o) q
    → Within
        (merge_blocks (suc n) (block p o) s).0.order
        (merge_blocks (suc n) (block p o) s).0.head
        q
unfolding merge_blocks
first_round n o p s q al can w =
    let next : o + 1 ≡ suc o = omega arith in
    let upper = get_page_buddy-upper o p al in
    let lower : ltb (p + 2 ^ o) p ≡ false = ground arith in
    rw (upper, can, lower, next)
      (merge_blocks-Within n (suc o) p (absorb p (p + 2 ^ o) s) q al (omega (arith, pow-suc 2 o)))

-- Freeing the lower half of a pair takes in the whole upper half as soon as the upper half's first
-- page heads a free block, of whatever order that block is: every page of the upper half is marked
-- free behind the call, also those that were not free before.
pub free_block-takes_buddy :
    (pool o p : ℕ) (s : Kernel) (q : ℕ)
    → o < max_page_order - 1
    → p % 2 ^ suc o ≡ 0
    → can_merge (s.page (p + 2 ^ o)) ≡ true
    → Within o (p + 2 ^ o) q
    → ((free_block pool p o s).page q).is_free ≡ true
unfolding free_block put_block
free_block-takes_buddy pool o p s q small al can w =
    let n = max_page_order - 1 - suc o in
    let rounds : max_page_order - 1 - o ≡ suc n = omega arith in
    let out = merge_blocks (suc n) (block p o) s in
    let inside = first_round n o p s q al can w in
    let at = reinit_page_lem out.0.head out.0.order true out.1.page q in rw rounds (ground arith)
