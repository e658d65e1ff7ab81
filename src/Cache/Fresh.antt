-- ===== src/Cache/Fresh.antt =====
-- A cache that `Init` and `AddPool` have set up.
use closure_os.Base.{
  ℕ, zero, suc, ◌+◌, ◌*◌, ◌/◌, ◌%◌, ◌^◌, ◌<◌, ◌≡◌, ◌≢◌, refl, ◌∙◌, ap, Bool, true, false, ◌&&◌,
  ◌==◌, [], Option, none, some, ltb, leb, if◌then◌else◌, arith,
}
use closure_os.ListHead.{Node, partial_head, full_head, list_head_init}
use closure_os.ListHead.Ring.{IsRing, IsRing-frame, list_head_init-IsRing}
use closure_os.Kernel.{KMemCache, Kernel, update, update_self}
use closure_os.Cache.{clear_pools, cache_order, empty_slot, add_pool, init, on_cache}

-- Cache `k` is set up for objects of size `sz` from one pool, and has none yet.
pub record IsFresh (s : Kernel) (k sz pool : ℕ) : Type 0 where
  pub obj_sz : (s.cache k).obj_sz ≡ sz
  pub order : (s.cache k).order ≡ cache_order sz
  pub page_obj_nr : (s.cache k).page_obj_nr ≡ 4096 * 2 ^ cache_order sz % 2 ^ 64 / sz
  pub current : (s.cache k).current ≡ none
  pub freelist : (s.cache k).freelist ≡ 0
  pub lock : (s.cache k).lock ≡ 0
  pub pool_first : (s.cache k).pools 0 ≡ some pool
  pub pool_only : (i : ℕ) → 0 < i → i < 16 → (s.cache k).pools i ≡ none
  pub partial : IsRing s.links (partial_head k) []
  pub full : IsRing s.links (full_head k) []

clear_pools_lem :
    (n i : ℕ) (pools : ℕ → Option ℕ) (j : ℕ)
    → clear_pools n i pools j ≡ (if leb i j && ltb j (i + n) then none else pools j)
unfolding clear_pools
clear_pools_lem zero i pools j = ground arith
clear_pools_lem (suc n) i pools j = clear_pools_lem n (i + 1) (update pools i none) j ∙ ground arith

-- What setting up cache `k` leaves alone.
pub record Kept (s : Kernel) (k : ℕ) (after : Kernel) : Type 0 where
  pub cache : (j : ℕ) → k ≢ j → after.cache j ≡ s.cache j
  pub links : (m : Node) → m ≢ partial_head k → m ≢ full_head k → after.links m ≡ s.links m
  pub page : after.page ≡ s.page
  pub locks : after.pool_lock ≡ s.pool_lock

init-Kept : (k sz : ℕ) (s : Kernel) → Kept s k (init k sz s)
unfolding init list_head_init
init-Kept k sz s = record {
  cache = λ j ne. ground arith;
  links = λ m ne ne'. ground arith;
  page = refl;
  locks = refl;
}

empty_slot-first : (pools : ℕ → Option ℕ) → pools 0 ≡ none → empty_slot 16 0 pools ≡ some 0
unfolding empty_slot
empty_slot-first pools e =
    ap (λ (o : Option ℕ). elim o [ none ↦ some 0 | some _ ↦ empty_slot 15 (0 + 1) pools ]) e

-- The first pool goes into slot 0.
add_pool-first :
    (k pool : ℕ) (s : Kernel)
    → (s.cache k).pool_nr ≡ 0
    → (s.cache k).pools 0 ≡ none
    → (add_pool k pool s).1 ≡ on_cache k (λ c. record c { pools = update c.pools 0 (some pool) }) s
unfolding add_pool
add_pool-first k pool s e e' =
    let pools = (s.cache k).pools in
    let full : ((s.cache k).pool_nr == 16) ≡ false = rw e refl in
    rw full (
      ap
        (λ (o : Option ℕ).
          (elim o as (λ _. Bool × Kernel) [
            | none ↦ (false, s)
            | some i ↦ (true, on_cache k (λ c. record c { pools = update c.pools i (some pool) }) s)
          ]).1)
        (empty_slot-first pools e'))

-- A round of the loop of `kheap_pool_init`
abbrev pub set_up : (k sz pool : ℕ) → Kernel → Kernel
set_up k sz pool s = (add_pool k pool (init k sz s)).1

set_up-eq :
    (k sz pool : ℕ) (s : Kernel)
    → set_up k sz pool s
      ≡ on_cache k (λ c. record c { pools = update c.pools 0 (some pool) }) (init k sz s)
unfolding init
set_up-eq k sz pool s = add_pool-first k pool (init k sz s) ground arith (
    ap (λ (c : KMemCache). c.pools 0) (update_self s.cache k _)
    ∙ clear_pools_lem 16 0 (s.cache k).pools 0)

pub set_up-IsFresh : (k sz pool : ℕ) (s : Kernel) → IsFresh (set_up k sz pool s) k sz pool
unfolding init list_head_init
set_up-IsFresh k sz pool s = rw (set_up-eq k sz pool s) (record {
  obj_sz = ground arith;
  order = ground arith;
  page_obj_nr = ground arith;
  current = ground arith;
  freelist = ground arith;
  lock = ground arith;
  pool_first = ground arith;
  pool_only = λ i pos small.
      let cleared = clear_pools_lem 16 0 (s.cache k).pools i in ground (arith, cleared);
  partial =
      IsRing-frame (list_head_init (partial_head k) s.links)
        (list_head_init (full_head k) (list_head_init (partial_head k) s.links)) (partial_head k) []
        (list_head_init-IsRing (partial_head k) s.links) (ground arith) tt;
  full = list_head_init-IsRing (full_head k) (list_head_init (partial_head k) s.links);
})

pub set_up-Kept : (k sz pool : ℕ) (s : Kernel) → Kept s k (set_up k sz pool s)
set_up-Kept k sz pool s =
    let kept = init-Kept k sz s in
    rw (set_up-eq k sz pool s) (record {
      cache = λ j ne. ground (arith, kept.cache j);
      links = kept.links;
      page = kept.page;
      locks = kept.locks;
    })

pub IsFresh-frame :
    (s after : Kernel) (k sz pool : ℕ)
    → after.cache k ≡ s.cache k
    → after.links (partial_head k) ≡ s.links (partial_head k)
    → after.links (full_head k) ≡ s.links (full_head k)
    → IsFresh s k sz pool
    → IsFresh after k sz pool
IsFresh-frame s after k sz pool e e₁ e₂ f = record {
  obj_sz = rw e f.obj_sz;
  order = rw e f.order;
  page_obj_nr = rw e f.page_obj_nr;
  current = rw e f.current;
  freelist = rw e f.freelist;
  lock = rw e f.lock;
  pool_first = rw e f.pool_first;
  pool_only = λ i pos small. rw e (f.pool_only i pos small);
  partial = IsRing-frame s.links after.links (partial_head k) [] f.partial e₁ tt;
  full = IsRing-frame s.links after.links (full_head k) [] f.full e₂ tt;
}
