-- ===== src/Cache.antt =====
-- `class KMemCache` of src/kernel/mm/heap_mm.cppm: a cache of objects of one size, which slices blocks
-- of pages into objects and hands these out. Objects are virtual addresses, and 0 is null.
pub mod Slice
pub mod Reuse
pub mod Geometry
pub mod Fresh
pub mod Refill
pub mod Rounds
pub mod First
use closure_os.Base.{
  ℕ, zero, suc, ◌+◌, ◌-◌, ◌*◌, ◌/◌, ◌%◌, ◌^◌, Bool, true, false, Option, none, some, ◌==◌, ltb, leb,
  if◌then◌else◌,
}
use closure_os.Layout.{page_size}
use closure_os.Atomic.{try_lock, unlock, reset}
use closure_os.ListHead.{
  page_list, partial_head, full_head, list_add_next, list_del, list_empty, list_head_init,
}
use closure_os.Kernel.{
  Page, KMemCache, Kernel, Cmd, Run, ok, stuck, fault, pure, ◌>>=◌, ◌>>◌, get, modify, throw,
  page_of, update, on_links,
}
use closure_os.Page.{page_to_virt}
use closure_os.Pool.{alloc_pages, get_page, put_page}

abbrev pub cache_pool_max_nr : ℕ
cache_pool_max_nr = 16

abbrev pub on_cache : ℕ → (KMemCache → KMemCache) → Kernel → Kernel
on_cache k f s = record s { cache = update s.cache k (f (s.cache k)) }

abbrev pub on_page : ℕ → (Page → Page) → Kernel → Kernel
on_page p f s = record s { page = update s.page p (f (s.page p)) }

abbrev pub not_null : ℕ → Bool
not_null a = ltb 0 a

-- `page == this->current`
abbrev pub is_current : ℕ → Option ℕ → Bool
is_current page none = false
is_current page (some p) = page == p

-- `KMemCache::AddPool`: the first empty slot from `i` on, of `rounds` that are left.
unfoldable pub empty_slot : (rounds i : ℕ) → (ℕ → Option ℕ) → Option ℕ
empty_slot zero i pools = none
empty_slot (suc rounds) i pools =
    let rest = empty_slot rounds (i + 1) pools in elim (pools i) [ none ↦ some i | some _ ↦ rest ]

unfoldable pub add_pool : (k pool : ℕ) → Kernel → Bool × Kernel
unfolding empty_slot
add_pool k pool s =
    if (s.cache k).pool_nr == cache_pool_max_nr
    then (false, s)
    else elim (empty_slot cache_pool_max_nr 0 (s.cache k).pools) [
      | none ↦ (false, s)
      | some i ↦ (true, on_cache k (λ c. record c { pools = update c.pools i (some pool) }) s)
    ]

-- `KMemCache::RemovePool`
unfoldable pub remove_pool : (k index : ℕ) → Kernel → Option ℕ × Kernel
remove_pool k index s =
    if leb cache_pool_max_nr index then (none, s) else elim ((s.cache k).pools index) [
      | none ↦ (none, s)
      | some pool ↦ (some pool, on_cache k (λ c. record c { pools = update c.pools index none }) s)
    ]

unfoldable pub clear_pools : (rounds i : ℕ) → (ℕ → Option ℕ) → ℕ → Option ℕ
clear_pools zero i pools = pools
clear_pools (suc rounds) i pools = clear_pools rounds (i + 1) (update pools i none)

-- The order of the blocks that a cache slices.
unfoldable pub cache_order : ℕ → ℕ
cache_order obj_sz =
    let order = obj_sz / page_size in if leb page_size obj_sz then order + 1 else order

-- `KMemCache::Init`. `PAGE_SIZE << this->order` loses its bits from 2 ^ 64 on; a shift by 64 or more is
-- not defined.
unfoldable pub init : (k obj_sz : ℕ) → Kernel → Kernel
unfolding cache_order reset
init k obj_sz s =
    let order = cache_order obj_sz in
    let s₁ =
      on_cache k
        (λ c. record {
          pools = clear_pools cache_pool_max_nr 0 c.pools;
          pool_nr = 0;
          order = order;
          page_obj_nr = page_size * 2 ^ order % 2 ^ 64 / obj_sz;
          obj_sz = obj_sz;
          current = none;
          freelist = 0;
          lock = (reset c.lock).cell;
        })
        s in
    on_links (list_head_init (full_head k)) (on_links (list_head_init (partial_head k)) s₁)

-- `KMemCache::__internal_page_alloc`: the pools from slot `i` on.
unfoldable pub alloc_from : (rounds i order : ℕ) → (ℕ → Option ℕ) → Cmd (Option ℕ)
alloc_from zero i order pools = pure none
alloc_from (suc rounds) i order pools =
    let rest = alloc_from rounds (i + 1) order pools in
    elim (pools i) [
      | none ↦ rest
      | some pool ↦ alloc_pages pool order >>= λ new_page. elim new_page [
        | none ↦ rest
        | some p ↦ pure (some p)
      ]
    ]

unfoldable pub internal_page_alloc : ℕ → Cmd (Option ℕ)
unfolding alloc_from
internal_page_alloc k s = alloc_from cache_pool_max_nr 0 (s.cache k).order (s.cache k).pools s

-- The loop of `__page_obj_slicing`: `*obj_ptr = curr_obj`, and on to the next object.
unfoldable pub slice_loop : (rounds obj_sz curr_obj next_obj : ℕ) → (ℕ → ℕ) → ℕ × (ℕ → ℕ)
slice_loop zero obj_sz curr_obj next_obj words = (curr_obj, words)
slice_loop (suc rounds) obj_sz curr_obj next_obj words =
    slice_loop rounds obj_sz next_obj ((next_obj + obj_sz) % 2 ^ 64)
      (update words next_obj curr_obj)

-- `KMemCache::__page_obj_slicing`
unfoldable pub page_obj_slicing : (k page : ℕ) → Kernel → Kernel
unfolding slice_loop
page_obj_slicing k page s =
    let c = s.cache k in
    let (curr_obj, words) = slice_loop c.page_obj_nr c.obj_sz 0 (page_to_virt page) s.words in
    get_page page (
      on_page page (λ p. record p { obj_nr = c.page_obj_nr; freelist = curr_obj; kc = some k })
        (record s { words = words }))

-- The first lines of `__internal_obj_alloc` behind `redo`, where the cache's free list has an object.
unfoldable pub pop_object : (k page : ℕ) → Kernel → ℕ × Kernel
pop_object k page s =
    let obj = (s.cache k).freelist in
    let s₁ = on_cache k (λ c. record c { freelist = s.words obj }) s in
    (obj, on_page page (λ p. record p { obj_nr = (p.obj_nr + 2 ^ 64 - 1) % 2 ^ 64 }) s₁)

-- The current page, which has no object left, goes to the full list.
unfoldable pub retire_current : ℕ → Kernel → Kernel
retire_current k s = elim (s.cache k).current [
  | none ↦ s
  | some page ↦
      on_cache k (λ c. record c { current = none })
        (on_links (list_add_next (full_head k) (page_list page)) s)
]

-- `page` becomes the current page, and its free list the cache's.
abbrev pub make_current : (k page : ℕ) → Kernel → Kernel
make_current k page s =
    on_cache k (λ c. record c { current = some page; freelist = (s.page page).freelist }) s

unfoldable pub take_partial : ℕ → Cmd (Unit {0})
take_partial k = do
  s ← get
  page ← page_of (s.links (partial_head k)).next
  modify (make_current k page)
  modify (on_links (list_del (page_list page)))

-- `__internal_obj_alloc`, with fuel for the jumps back to `redo`. `current` is read where the free
-- list has an object; with no current page that is a read through null.
unfoldable pub internal_obj_alloc : (fuel k : ℕ) → Cmd ℕ
internal_obj_alloc zero k s = stuck
internal_obj_alloc (suc fuel) k s =
    let redo = internal_obj_alloc fuel k in
    let s₁ = retire_current k s in
    if not_null (s.cache k).freelist
    then elim (s.cache k).current [
      | none ↦ fault
      | some page ↦ let (obj, s₂) = pop_object k page s in ok obj s₂
    ]
    else if list_empty (partial_head k) s₁.links
    then (internal_page_alloc k >>= λ new_page. elim new_page [
      | none ↦ modify (on_cache k (λ c. record c { current = none })) >> pure 0
      | some page ↦ modify (page_obj_slicing k page) >> modify (make_current k page) >> redo
    ])
        s₁
    else (take_partial k >> redo) s₁

-- `KMemCache::__internal_obj_free`
unfoldable pub internal_obj_free : (k page obj : ℕ) → Cmd (Unit {0})
internal_obj_free k page obj s =
    let s₁ = on_page page (λ p. record p { obj_nr = (p.obj_nr + 1) % 2 ^ 64 }) s in
    let n = (s₁.page page).obj_nr in
    let freelist = (s₁.cache k).freelist in
    if is_current page (s₁.cache k).current
    then ok tt (
        on_cache k (λ c. record c { freelist = obj })
          (record s₁ { words = update s₁.words obj freelist }))
    else if n == 1
    then ok tt (
        on_links (list_add_next (full_head k) (page_list page))
          (on_links (list_del (page_list page)) s₁))
    else if n == (s₁.cache k).page_obj_nr
    then put_page page (on_links (list_del (page_list page)) s₁)
    else ok tt s₁

-- `this->lock.Lock()` of a cache, with no other processor to release the lock.
unfoldable pub lock_cache : ℕ → Cmd (Unit {0})
unfolding try_lock
lock_cache k s =
    if (try_lock (s.cache k).lock).result
    then ok tt (on_cache k (λ c. record c { lock = (try_lock c.lock).cell }) s)
    else stuck

unfoldable pub unlock_cache : ℕ → Kernel → Kernel
unfolding unlock
unlock_cache k s = on_cache k (λ c. record c { lock = (unlock c.lock).cell }) s

-- `KMemCache::Malloc` and `KMemCache::Free`
unfoldable pub malloc : (fuel k : ℕ) → Cmd ℕ
malloc fuel k = do lock_cache k; obj ← internal_obj_alloc fuel k; modify (unlock_cache k); pure obj

unfoldable pub free : (k page obj : ℕ) → Cmd (Unit {0})
free k page obj = do lock_cache k; internal_obj_free k page obj; modify (unlock_cache k)
