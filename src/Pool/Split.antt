-- ===== src/Pool/Split.antt =====
-- The loop of `__alloc_page_direct` that puts the upper halves of a block back on the free lists.
use closure_os.Base.{
  ℕ, zero, suc, ◌+◌, ◌-◌, ◌%◌, ◌^◌, ◌≤◌, ◌<◌, ◌≡◌, refl, ◌↔◌, ◌⊎◌, inl, inr, ◌∙◌, arith,
}
use native.Mathlib.Nat.{pow-suc}
use closure_os.Kernel.{Kernel}
use closure_os.Page.Convert.{get_page_buddy-upper, aligned_halves}
use closure_os.Pool.{max_page_order, put_block, split_block}
use closure_os.Pool.Inv.{
  Free, Within, IsPool, IsClear, Covers, push, has-push, Covers-push, IsListed,
}
use closure_os.Pool.Put.{put_block-IsPool, put_block-IsListedBut}

-- A block of order `o + 1` is its two halves.
pub Within-suc : (o p q : ℕ) → Within (suc o) p q ↔ (Within o p q ⊎ Within o (p + 2 ^ o) q)
Within-suc o p q = ((λ w. omega (arith, pow-suc 2 o)), (λ w. omega (arith, pow-suc 2 o)))

-- Behind the loop: the lists hold the halves, the block at `p` is of order `o`, and it and the lists
-- have the pages that the lists and the block of order `a` had.
pub record IsSplit (s : Kernel) (pool : ℕ) (free : Free) (p a o : ℕ) (s' : Kernel) : Type 0 where
  pub lists : Free
  pub pool_ok : IsPool s' pool lists
  pub clear : IsClear lists o p
  pub aligned : p % 2 ^ o ≡ 0
  pub pages : (q : ℕ) → (Covers lists q ⊎ Within o p q) ↔ (Covers free q ⊎ Within a p q)
  pub listed : IsListed s free a p → IsListed s' lists o p
  pub locks : s'.pool_lock ≡ s.pool_lock

IsClear-upper : (free : Free) (o p : ℕ) → IsClear free (suc o) p → IsClear free o (p + 2 ^ o)
IsClear-upper free o p clear o' p' q h m w w' = clear o' p' q h m ((Within-suc o p q).1 (inr w)) w'

IsClear-lower :
    (free : Free) (o p : ℕ) → IsClear free (suc o) p → IsClear (push free o (p + 2 ^ o)) o p
IsClear-lower free o p clear o' p' q h m w w' = elim (has-push free o (p + 2 ^ o) o' p' m) [
  | inl (eo, ep) ↦ omega arith
  | inr old ↦ clear o' p' q h old ((Within-suc o p q).1 (inl w)) w'
]

pages_step :
    (free : Free) (o p q : ℕ)
    → o < max_page_order
    → (Covers (push free o (p + 2 ^ o)) q ⊎ Within o p q) ↔ (Covers free q ⊎ Within (suc o) p q)
pages_step free o p q h = (
  elim [
    | inl c ↦ elim ((Covers-push free o (p + 2 ^ o) q h).0 c) [
      | inl old ↦ inl old
      | inr up ↦ inr ((Within-suc o p q).1 (inr up))
    ]
    | inr low ↦ inr ((Within-suc o p q).1 (inl low))
  ],
  elim [
    | inl c ↦ inl ((Covers-push free o (p + 2 ^ o) q h).1 (inl c))
    | inr w ↦ elim ((Within-suc o p q).0 w) [
      | inl low ↦ inr low
      | inr up ↦ inl ((Covers-push free o (p + 2 ^ o) q h).1 (inr up))
    ]
  ],
)

put_block-pool_lock : (pool p o : ℕ) (s : Kernel) → (put_block pool p o s).pool_lock ≡ s.pool_lock
unfolding put_block
put_block-pool_lock pool p o s = refl

pub split_block-IsSplit :
    (n : ℕ) {s : Kernel} {pool : ℕ} {free : Free} (p a : ℕ)
    → IsPool s pool free
    → a < max_page_order
    → n ≤ a
    → p % 2 ^ a ≡ 0
    → IsClear free a p
    → IsSplit s pool free p a (a - n) (split_block n pool p a s)
unfolding split_block
split_block-IsSplit zero {free} p a inv h le al clear =
    let e : a - 0 ≡ a = omega arith in
    rw e (record {
      lists = free;
      pool_ok = inv;
      clear = clear;
      aligned = al;
      pages = λ q. ((λ c. c), (λ c. c));
      listed = λ old. old;
      locks = refl;
    })
split_block-IsSplit (suc n) p zero inv h le al clear = absurd (omega arith)
split_block-IsSplit (suc n) {s} {pool} {free} p (suc o) inv h le al clear =
    let e : suc o - 1 ≡ o = omega arith in
    let e' : suc o - suc n ≡ o - n = omega arith in
    let ho : o < max_page_order = omega arith in
    let (al_low, al_up) = aligned_halves o p al in
    let up = IsClear-upper free o p clear in
    let put = put_block-IsPool inv o (p + 2 ^ o) ho up al_up in
    let rest =
      split_block-IsSplit n p o put ho (omega arith) al_low (IsClear-lower free o p clear) in
    rw (e, e', get_page_buddy-upper o p al)
      (record {
        lists = rest.lists;
        pool_ok = rest.pool_ok;
        clear = rest.clear;
        aligned = rest.aligned;
        pages = λ q. (
          (λ c. (pages_step free o p q ho).0 ((rest.pages q).0 c)),
          (λ c. (rest.pages q).1 ((pages_step free o p q ho).1 c)),
        );
        listed = λ old. rest.listed (
            put_block-IsListedBut (Within o p) pool o (p + 2 ^ o) s free ho (λ q low up.
              old q (λ w. elim ((Within-suc o p q).0 w) [ inl l ↦ low l | inr u ↦ up u ])));
        locks = rest.locks ∙ put_block-pool_lock pool (p + 2 ^ o) o s;
      })
