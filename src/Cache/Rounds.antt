-- ===== src/Cache/Rounds.antt =====
-- The rounds of `__internal_obj_alloc` on an empty cache.
use closure_os.Base.{
  ℕ, suc, ◌+◌, ◌*◌, ◌^◌, ◌≤◌, ◌<◌, ◌≡◌, ◌≢◌, refl, ap, true, false, [], Option, none, some, arith,
}
use closure_os.ListHead.{partial_head, full_head, page_list, list_empty, list_add_next}
use closure_os.ListHead.Ring.{IsRing, list_empty_iff}
use closure_os.Kernel.{Kernel, Cmd, pure, modify, ◌>>◌, ◌>>=◌, on_links}
use closure_os.Page.{page_to_virt}
use closure_os.Pool.{max_page_order}
use closure_os.Pool.Inv.{Free, IsPool, IsClear, Covers}
use closure_os.Pool.Put.{own_page}
use closure_os.Cache.{
  internal_page_alloc, internal_obj_alloc, page_obj_slicing, make_current, retire_current, on_cache,
  not_null,
}

abbrev pub refill : (fuel k : ℕ) → Option ℕ → Cmd ℕ
refill fuel k new_page = elim new_page as (λ _. Cmd ℕ) [
  | none ↦ modify (on_cache k (λ c. record c { current = none })) >> pure 0
  | some page ↦
      modify (page_obj_slicing k page) >> modify (make_current k page) >> internal_obj_alloc fuel k
]

retire_none : (k : ℕ) (s : Kernel) → (s.cache k).current ≡ none → retire_current k s ≡ s
unfolding retire_current
retire_none k s e =
    ap
      (λ (o : Option ℕ). elim o as (λ _. Kernel) [
        | none ↦ s
        | some page ↦
            on_cache k (λ c. record c { current = none })
              (on_links (list_add_next (full_head k) (page_list page)) s)
      ])
      e

-- A cache without objects, current page and partial pages turns to the page pools.
pub first_round :
    (fuel k : ℕ) (s : Kernel)
    → (s.cache k).current ≡ none
    → (s.cache k).freelist ≡ 0
    → IsRing s.links (partial_head k) []
    → internal_obj_alloc (suc fuel) k s ≡ (internal_page_alloc k >>= refill fuel k) s
unfolding internal_obj_alloc
first_round fuel k s e e' ring =
    let none_left : list_empty (partial_head k) s.links ≡ true =
      (list_empty_iff (partial_head k) [] ring).1 refl in
    let null : not_null (s.cache k).freelist ≡ false = rw e' refl in
    rw (null, retire_none k s e, none_left) refl

-- The pages that the pool has lie below page 2 ^ 34, the end of the direct map.
abbrev pub IsMapped : Free → Type 0
IsMapped free = (q : ℕ) → Covers free q → q < 2 ^ 34

-- The objects of a block at `p` lie in the direct map.
pub block_fits :
    (order p n sz : ℕ)
    → order < max_page_order
    → p + 2 ^ order ≤ 2 ^ 34
    → n * sz ≤ 4096 * 2 ^ order
    → (0 < page_to_virt p) × (page_to_virt p + n * sz < 2 ^ 64)
unfolding page_to_virt
block_fits order p n sz small low fits = omega arith

-- What changes one page of a block that is handed out leaves the pool well-formed.
pub IsPool-frame :
    {s : Kernel} {pool : ℕ} {free : Free} (order p : ℕ) (after : Kernel)
    → after.links ≡ s.links
    → ((q : ℕ) → p ≢ q → after.page q ≡ s.page q)
    → IsClear free order p
    → IsPool s pool free
    → IsPool after pool free
IsPool-frame order p after links pages clear inv = record {
  ring = λ o small. rw links (inv.ring o small);
  block = λ o h small m.
      let old = inv.block o h small m in
      let same = pages h (λ e. clear o h h small m (rw e (own_page order h)) (own_page o h)) in
      record {
        aligned = old.aligned;
        headed = rw same old.headed;
        freed = rw same old.freed;
        sized = rw same old.sized;
      };
  apart = inv.apart;
}
