-- ===== src/Pool/Merge.antt =====
-- The loop of `__free_pages` that joins a block with its free buddies.
use closure_os.Base.{
  ℕ, zero, suc, ◌+◌, ◌-◌, ◌%◌, ◌^◌, ◌≤◌, ◌<◌, ◌≡◌, refl, true, false, ◌↔◌, ◌⊎◌, inl, inr, ◌∙◌, ltb,
  if◌then◌else◌, Bool-cases, ◌∷◌, ◌++◌, List, arith,
}
use closure_os.ListHead.{page_list, list_del}
use closure_os.Kernel.{Kernel}
use closure_os.Page.{get_page_buddy}
use closure_os.Page.Convert.{aligned_nested}
use closure_os.Pool.{max_page_order, Block, can_merge, absorb, merge_blocks}
use closure_os.Pool.Inv.{Free, has, Within, IsListed, IsPool, IsClear, Covers, pull, has-split}
use closure_os.Pool.Take.{take-IsPool, take-IsClear, Covers-pull, has-left, left-or-taken}
use closure_os.Pool.Pair.{IsPair, IsPair-of}
use closure_os.Pool.Put.{own_page}

abbrev pub block : ℕ → ℕ → Block
block p o = record { head = p; order = o }

-- At each order from `o` on, the buddy of the block around `p` is no smaller free block: if it heads
-- a free block, that block has the same order.
abbrev pub IsMatched : Free → ℕ → ℕ → Type 0
IsMatched free o p =
    (k c i : ℕ)
    → o ≤ k
    → k < max_page_order - 1
    → i < max_page_order
    → c % 2 ^ k ≡ 0
    → Within k c p
    → has (get_page_buddy c k) (free i) ≡ true
    → i ≡ k

-- What the loop makes of the block of order `o` at `p`.
pub record IsMerged (s : Kernel) (pool : ℕ) (free : Free) (o p : ℕ) (out : Block × Kernel)
    : Type 0 where
  pub lists : Free
  pub pool_ok : IsPool out.1 pool lists
  pub clear : IsClear lists out.0.order out.0.head
  pub small : out.0.order < max_page_order
  pub aligned : out.0.head % 2 ^ out.0.order ≡ 0
  pub pages :
      (q : ℕ) → (Covers lists q ⊎ Within out.0.order out.0.head q) ↔ (Covers free q ⊎ Within o p q)
  pub listed : IsListed out.1 lists out.0.order out.0.head
  pub locks : out.1.pool_lock ≡ s.pool_lock
  pub fewer : (i q : ℕ) → i < max_page_order → has q (lists i) ≡ true → has q (free i) ≡ true
  pub types : (q : ℕ) → (out.1.page q).type ≡ (s.page q).type
  pub owners : (q : ℕ) → (out.1.page q).pool ≡ (s.page q).pool
  pub behind : (q : ℕ) → p < q → out.1.page q ≡ s.page q
  pub stopped :
      (out.0.order ≡ max_page_order - 1)
      ⊎ (can_merge (out.1.page (get_page_buddy out.0.head out.0.order)) ≡ false)

-- What a round writes.
absorb-page :
    (p buddy : ℕ) (s : Kernel) (j : ℕ) → (j ≡ p → ⊥) → (absorb p buddy s).page j ≡ s.page j
unfolding absorb
absorb-page p buddy s j ne = ground arith

absorb-links :
    (p buddy : ℕ) (s : Kernel) → (absorb p buddy s).links ≡ list_del (page_list buddy) s.links
unfolding absorb
absorb-links p buddy s = ground arith

absorb-locks : (p buddy : ℕ) (s : Kernel) → (absorb p buddy s).pool_lock ≡ s.pool_lock
unfolding absorb
absorb-locks p buddy s = ground arith

absorb-type :
    (p buddy : ℕ) (s : Kernel) (q : ℕ) → ((absorb p buddy s).page q).type ≡ (s.page q).type
unfolding absorb
absorb-type p buddy s q = ground arith

absorb-pool :
    (p buddy : ℕ) (s : Kernel) (q : ℕ) → ((absorb p buddy s).page q).pool ≡ (s.page q).pool
unfolding absorb
absorb-pool p buddy s q = ground arith

-- A round with the buddy taken off its list, where that list has the block's order.
module _ {s : Kernel} {pool : ℕ} {free : Free} (inv : IsPool s pool free) (o p : ℕ)
    (ho : o < max_page_order) (al : p % 2 ^ o ≡ 0) (clear : IsClear free o p) (buddy low : ℕ)
    (pair : IsPair o p buddy low) (ys zs : List ℕ) (split : free o ≡ ys ++ buddy ∷ zs) where
  abbrev fewer : Free
  fewer = pull free o (ys ++ zs)

  fewer-IsClear : IsClear fewer o p
  fewer-IsClear i p' q h m = clear i p' q h (has-left inv o buddy ys zs ho split i p' m).0

  pub round-IsPool : IsPool (absorb p buddy s) pool fewer
  round-IsPool =
      let taken = take-IsPool inv o buddy ys zs ho split in
      record {
        ring = λ i h. rw (absorb-links p buddy s) (taken.ring i h);
        block = λ i p' h m.
            let old = taken.block i p' h m in
            let same =
              absorb-page p buddy s p'
                (λ e. fewer-IsClear i p' p h m (own_page o p) (rw (← e) (own_page i p'))) in
            record {
              aligned = old.aligned;
              headed = rw same old.headed;
              freed = rw same old.freed;
              sized = rw same old.sized;
            };
        apart = taken.apart;
      }

  pub round-IsClear : IsClear fewer (suc o) low
  round-IsClear i p' q h m w w' = elim ((pair.both q).0 w) [
    | inl here ↦ fewer-IsClear i p' q h m here w'
    | inr there ↦ take-IsClear inv o buddy ys zs ho split i p' q h m there w'
  ]

  pub round-pages :
      (q : ℕ) → (Covers fewer q ⊎ Within (suc o) low q) ↔ (Covers free q ⊎ Within o p q)
  round-pages q =
      let pulled = Covers-pull inv o buddy ys zs ho split q in
      (
        elim [
          | inl c ↦ inl (pulled.0 (inl c))
          | inr w ↦ elim ((pair.both q).0 w) [
            | inl here ↦ inr here
            | inr there ↦ inl (pulled.0 (inr there))
          ]
        ],
        elim [
          | inl c ↦ elim (pulled.1 c) [
            | inl old ↦ inl old
            | inr there ↦ inr ((pair.both q).1 (inr there))
          ]
          | inr here ↦ inr ((pair.both q).1 (inl here))
        ],
      )

  pub round-IsListed : IsListed s free o p → IsListed (absorb p buddy s) fewer (suc o) low
  round-IsListed listed q out can =
      let far : Within o p q → ⊥ = λ w. out ((pair.both q).1 (inl w)) in
      let same = absorb-page p buddy s q (λ e. far (rw e (own_page o p))) in
      let (i, hi, m) = listed q far (rw same at can) in
      (
        i,
        hi,
        elim (left-or-taken inv o buddy ys zs ho split i q m) [
          | inl left ↦ left
          | inr (_, e) ↦ absurd (out ((pair.both q).1 (inr (rw (← e) (own_page o buddy)))))
        ],
      )

  pub round-IsMatched : IsMatched free o p → IsMatched fewer (suc o) low
  round-IsMatched matched k c i le small hi ac w m =
      let ends = aligned_nested (suc o) k low c le pair.aligned ac w.1 in
      matched k c i (omega arith) small hi ac (omega (arith, pair.inside))
        (has-left inv o buddy ys zs ho split i (get_page_buddy c k) m).0

pub merge_blocks-IsMerged :
    (n : ℕ) {s : Kernel} {pool : ℕ} {free : Free} (o p : ℕ)
    → n + o ≡ max_page_order - 1
    → IsPool s pool free
    → IsClear free o p
    → p % 2 ^ o ≡ 0
    → IsListed s free o p
    → IsMatched free o p
    → IsMerged s pool free o p (merge_blocks n (block p o) s)
unfolding merge_blocks
merge_blocks-IsMerged zero {free} o p e inv clear al listed matched = record {
  lists = free;
  pool_ok = inv;
  clear = clear;
  small = omega arith;
  aligned = al;
  pages = λ q. ((λ c. c), (λ c. c));
  listed = listed;
  locks = refl;
  fewer = λ i q h m. m;
  types = λ q. refl;
  owners = λ q. refl;
  behind = λ q h. refl;
  stopped = inl (omega arith);
}
merge_blocks-IsMerged (suc n) {s} {pool} {free} o p e inv clear al listed matched =
    elim (Bool-cases (can_merge (s.page (get_page_buddy p o)))) [
      | inl yes_merge ↦
          let buddy = get_page_buddy p o in
          let low = (if ltb buddy p then buddy else p) in
          let pair : IsPair o p buddy low = IsPair-of o p al in
          let ho : o < max_page_order = omega arith in
          let (i, hi, m) = listed buddy pair.apart yes_merge in
          let same_order = matched o p i (omega arith) (omega arith) hi al (own_page o p) m in
          let (ys, zs, split) = has-split buddy (free o) (rw same_order at m) in
          let rest =
            merge_blocks-IsMerged n (suc o) low (omega arith)
              (round-IsPool inv o p ho al clear buddy low pair ys zs split)
              (round-IsClear inv o p ho al clear buddy low pair ys zs split) pair.aligned
              (round-IsListed inv o p ho al clear buddy low pair ys zs split listed)
              (round-IsMatched inv o p ho al clear buddy low pair ys zs split matched) in
          let next : o + 1 ≡ suc o = omega arith in
          rw (yes_merge, next)
            (record {
              lists = rest.lists;
              pool_ok = rest.pool_ok;
              clear = rest.clear;
              small = rest.small;
              aligned = rest.aligned;
              pages = λ q.
                  let here = round-pages inv o p ho al clear buddy low pair ys zs split q in
                  ((λ c. here.0 ((rest.pages q).0 c)), (λ c. (rest.pages q).1 (here.1 c)));
              listed = rest.listed;
              locks = rest.locks ∙ absorb-locks p buddy s;
              fewer = λ i q h m'. (has-left inv o buddy ys zs ho split i q (rest.fewer i q h m')).0;
              types = λ q. rest.types q ∙ absorb-type p buddy s q;
              owners = λ q. rest.owners q ∙ absorb-pool p buddy s q;
              behind = λ q after_p.
                  rest.behind q (ground arith) ∙ absorb-page p buddy s q (λ e. omega arith);
              stopped = rest.stopped;
            })
      | inr no_merge ↦ rw no_merge (record {
        lists = free;
        pool_ok = inv;
        clear = clear;
        small = omega arith;
        aligned = al;
        pages = λ q. ((λ c. c), (λ c. c));
        listed = listed;
        locks = refl;
        fewer = λ i q h m. m;
        types = λ q. refl;
        owners = λ q. refl;
        behind = λ q h. refl;
        stopped = inr no_merge;
      })
    ]
