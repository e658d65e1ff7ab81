-- ===== src/Pool.antt =====
-- `class PagePool` of src/kernel/mm/page_mm.cppm, the buddy allocator. A pool's free lists are the
-- list heads `free_head pool order`.
pub mod Inv
pub mod Put
pub mod Take
pub mod Find
pub mod Split
pub mod Alloc
pub mod Pair
pub mod Merge
pub mod Mapped
pub mod Free
pub mod Init
pub mod Overlap
pub mod Coalesce
pub mod Frame
pub mod Refs
use closure_os.Base.{
  ℕ, zero, suc, ◌+◌, ◌-◌, ◌^◌, Bool, true, false, ◌&&◌, Option, none, some, ◌==◌, ltb, leb,
  if◌then◌else◌,
}
use closure_os.ListHead.{page_list, free_head, list_add_next, list_del, list_empty, list_head_init}
use closure_os.Atomic.{is_negative, atomic_inc, atomic_dec, reset}
use closure_os.Kernel.{
  Page, Kernel, Cmd, Run, ok, pure, ◌>>=◌, ◌>>◌, get, modify, throw, page_of, update, on_links,
  on_pages, lock_pool, unlock_pool,
}
use closure_os.Page.{get_page_buddy, get_head_page, reinit_page, page_normal_mem}

abbrev pub max_page_order : ℕ
max_page_order = 11

-- A page and the order of the block that it heads.
pub record Block : Type 0 where
  pub head : ℕ
  pub order : ℕ

-- `p = list_entry(this->freelist[allocated].next, &Page::list); list_del(&p->list)`
unfoldable pub take_first : (pool allocated : ℕ) → Cmd (Option Block)
unfolding page_of
take_first pool allocated = do
  s ← get
  p ← page_of (s.links (free_head pool allocated)).next
  modify (on_links (list_del (page_list p)))
  pure (some (record { head = p; order = allocated }))

-- The loop over the orders from `allocated` on, of which `rounds` are left.
unfoldable pub find_block : (rounds pool allocated : ℕ) → Cmd (Option Block)
unfolding take_first
find_block zero pool allocated = pure none
find_block (suc rounds) pool allocated =
    let rest = find_block rounds pool (allocated + 1) in
    get >>= λ s.
    if list_empty (free_head pool allocated) s.links then rest else take_first pool allocated

-- `reinit_page(buddy, allocated, true); list_add_next(&this->freelist[allocated], &buddy->list)`
unfoldable pub put_block : (pool p order : ℕ) → Kernel → Kernel
put_block pool p order s =
    let s₁ = on_pages (reinit_page p order true) s in
    on_links (list_add_next (free_head pool order) (page_list p)) s₁

-- The loop that puts the upper halves back, `rounds` times.
unfoldable pub split_block : (rounds pool p allocated : ℕ) → Kernel → Kernel
unfolding put_block
split_block zero pool p allocated s = s
split_block (suc rounds) pool p allocated s =
    let allocated₁ = allocated - 1 in
    split_block rounds pool p allocated₁ (put_block pool (get_page_buddy p allocated₁) allocated₁ s)

-- The part of `__alloc_page_direct` behind its search. The loop leaves `allocated` at `order`.
unfoldable pub hand_out : (pool order : ℕ) → Option Block → Cmd (Option ℕ)
unfolding split_block
hand_out pool order none = pure none
hand_out pool order (some b) = do
  modify (split_block (b.order - order) pool b.head b.order)
  modify (on_pages (reinit_page b.head order false))
  pure (some b.head)

-- `PagePool::__alloc_page_direct`
unfoldable pub alloc_page_direct : (pool order : ℕ) → Cmd (Option ℕ)
unfolding find_block hand_out
alloc_page_direct pool order =
    find_block (max_page_order - order) pool order >>= hand_out pool order

-- `PagePool::__reclaim_memory` does nothing yet.
abbrev pub reclaim_memory : Kernel → Kernel
reclaim_memory s = s

-- The second try, behind `__reclaim_memory`.
unfoldable pub retry : (pool order : ℕ) → Option ℕ → Cmd (Option ℕ)
retry pool order (some p) = pure (some p)
retry pool order none = modify reclaim_memory >> alloc_page_direct pool order

-- `PagePool::__alloc_pages` and `AllocPages`
unfoldable pub alloc_pages : (pool order : ℕ) → Cmd (Option ℕ)
unfolding retry
alloc_pages pool order = if leb max_page_order order then pure none else do
  lock_pool pool
  p ← alloc_page_direct pool order
  p ← retry pool order p
  modify (unlock_pool pool)
  pure p

-- The test for a buddy that the source takes for a free block of the same order.
unfoldable pub can_merge : Page → Bool
can_merge buddy = (buddy.type == page_normal_mem) && (buddy.is_head && buddy.is_free)

-- A round of the loop of `__free_pages` whose test has passed.
unfoldable pub absorb : (p buddy : ℕ) → Kernel → Kernel
absorb p buddy s =
    let s₁ = on_links (list_del (page_list buddy)) s in
    if ltb buddy p
    then record s₁ { page = update s₁.page p (record (s₁.page p) { is_head = false }) }
    else s₁

-- The loop of `__free_pages`, with `rounds` orders left below the largest.
unfoldable pub merge_blocks : (rounds : ℕ) → Block → Kernel → Block × Kernel
merge_blocks zero b s = (b, s)
merge_blocks (suc rounds) b s =
    let buddy = get_page_buddy b.head b.order in
    let merged : Block = record {
      head = if ltb buddy b.head then buddy else b.head;
      order = b.order + 1;
    } in
    let rest = merge_blocks rounds merged (absorb b.head buddy s) in
    if can_merge (s.page buddy) then rest else (b, s)

-- `__free_pages` between `Lock` and `UnLock`.
unfoldable pub free_block : (pool p order : ℕ) → Kernel → Kernel
unfolding merge_blocks put_block
free_block pool p order s =
    let (b, s₁) =
      merge_blocks (max_page_order - 1 - order) (record { head = p; order = order }) s in
    put_block pool b.head b.order s₁

-- `PagePool::__free_pages` and `FreePages`
unfoldable pub free_pages : (pool : ℕ) → Option ℕ → (order : ℕ) → Cmd (Unit {0})
unfolding free_block lock_pool unlock_pool
free_pages pool none order = pure tt
free_pages pool (some p) order =
    if leb max_page_order order
    then pure tt
    else do lock_pool pool; modify (free_block pool p order); modify (unlock_pool pool)

-- `get_page`
unfoldable pub get_page : ℕ → Kernel → Kernel
unfolding atomic_inc
get_page p s =
    let head = get_head_page s.page p in
    record s {
      page =
          update s.page head
            (record (s.page head) { ref_count = (atomic_inc (s.page head).ref_count).cell });
    }

-- `p->pool->FreePages(p, p->order)`; a page without a pool has none to call.
unfoldable pub free_to_pool : ℕ → Cmd (Unit {0})
unfolding free_pages
free_to_pool p s = elim (s.page p).pool [
  | none ↦ throw s
  | some pool ↦ free_pages pool (some p) (s.page p).order s
]

-- `put_page`: the test is on the count before the decrement.
unfoldable pub put_page : ℕ → Cmd (Unit {0})
unfolding atomic_dec free_to_pool
put_page p s =
    let head = get_head_page s.page p in
    let old = atomic_dec (s.page head).ref_count in
    let s₁ = record s {
      page = update s.page head (record (s.page head) { ref_count = old.cell });
    } in
    if is_negative old.result then free_to_pool head s₁ else pure tt s₁

-- `PagePool::Init`
unfoldable pub init_heads : (rounds pool i : ℕ) → Kernel → Kernel
init_heads zero pool i s = s
init_heads (suc rounds) pool i s =
    init_heads rounds pool (i + 1) (on_links (list_head_init (free_head pool i)) s)

unfoldable pub init : ℕ → Kernel → Kernel
unfolding init_heads
init pool s =
    let s₁ = init_heads max_page_order pool 0 s in
    record s₁ { pool_lock = update s₁.pool_lock pool (reset (s₁.pool_lock pool)).cell }

-- `PagePool::AddPages`: its loop sets the pool of the same page in every round.
unfoldable pub set_pool : (rounds pool p : ℕ) → Kernel → Kernel
set_pool zero pool p s = s
set_pool (suc rounds) pool p s =
    set_pool rounds pool p
      (record s { page = update s.page p (record (s.page p) { pool = some pool }) })
