-- ===== src/Pool/Mapped.antt =====
-- `__free_pages` and `AddPages` of src/kernel/mm/page_mm.cppm where the page database has an end:
-- reading the descriptor of a buddy behind it is a page fault.
use closure_os.Base.{
  ℕ, zero, suc, ◌+◌, ◌-◌, ◌%◌, ◌^◌, ◌≤◌, ◌<◌, ◌≡◌, refl, true, false, ◌⊎◌, inl, inr, Bool-cases,
  Option, none, some, ltb, leb, if◌then◌else◌, arith,
}
use closure_os.Kernel.{
  Kernel, Cmd, ok, pure, ◌>>=◌, ◌>>◌, get, modify, throw, locked, lock_pool, lock_pool_lem,
  unlock_pool,
}
use closure_os.Page.{get_page_buddy}
use closure_os.Pool.{
  max_page_order, Block, can_merge, absorb, merge_blocks, put_block, free_block, free_pages,
  set_pool,
}
use closure_os.Pool.Inv.{Free, Within, IsPool, IsClear, Covers, IsListed, has-split}
use closure_os.Pool.Put.{own_page}
use closure_os.Pool.Alloc.{with_locks}
use closure_os.Pool.Pair.{IsPair, IsPair-of}
use closure_os.Pool.Merge.{
  block, IsMatched, round-IsPool, round-IsClear, round-pages, round-IsListed, round-IsMatched,
}

-- The loop of `__free_pages`, `merge_blocks`, where the descriptors below `mapped` can be read.
unfoldable pub merge_blocks_in : (mapped rounds : ℕ) → Block → Cmd Block
merge_blocks_in mapped zero b = pure b
merge_blocks_in mapped (suc rounds) b =
    let buddy = get_page_buddy b.head b.order in
    let merged : Block = record {
      head = if ltb buddy b.head then buddy else b.head;
      order = b.order + 1;
    } in
    let rest = modify (absorb b.head buddy) >> merge_blocks_in mapped rounds merged in
    if ltb buddy mapped
    then (get >>= λ s. if can_merge (s.page buddy) then rest else pure b)
    else throw

unfoldable pub free_pages_in : (mapped pool : ℕ) → Option ℕ → (order : ℕ) → Cmd (Unit {0})
unfolding merge_blocks_in put_block lock_pool unlock_pool
free_pages_in mapped pool none order = pure tt
free_pages_in mapped pool (some p) order = if leb max_page_order order then pure tt else do
  lock_pool pool
  b ← merge_blocks_in mapped (max_page_order - 1 - order) (record { head = p; order = order })
  modify (put_block pool b.head b.order)
  modify (unlock_pool pool)

-- `PagePool::AddPages`
unfoldable pub add_pages_in : (mapped pool p order : ℕ) → Cmd (Unit {0})
unfolding free_pages_in
add_pages_in mapped pool p order =
    modify (set_pool (2 ^ order) pool p) >> free_pages_in mapped pool (some p) order

-- The buddy of each block that only has free pages and pages of the block at `p` is mapped.
abbrev pub IsReadable : (mapped : ℕ) → Free → (o p : ℕ) → Type 0
IsReadable mapped free o p =
    (k c : ℕ)
    → o ≤ k
    → k < max_page_order - 1
    → c % 2 ^ k ≡ 0
    → ((q : ℕ) → Within k c q → Covers free q ⊎ Within o p q)
    → get_page_buddy c k < mapped

merge_blocks_in-mapped :
    (mapped n : ℕ) {s : Kernel} {pool : ℕ} {free : Free} (o p : ℕ)
    → n + o ≡ max_page_order - 1
    → IsPool s pool free
    → IsClear free o p
    → p % 2 ^ o ≡ 0
    → IsListed s free o p
    → IsMatched free o p
    → IsReadable mapped free o p
    → let out = merge_blocks n (block p o) s in
      merge_blocks_in mapped n (block p o) s ≡ ok out.0 out.1
unfolding merge_blocks merge_blocks_in
merge_blocks_in-mapped mapped zero o p e inv clear al listed matched readable = refl
merge_blocks_in-mapped mapped (suc n) {s} {pool} {free} o p e inv clear al listed matched readable =
    let buddy = get_page_buddy p o in
    let here : ltb buddy mapped ≡ true =
      let below = readable o p (omega arith) (omega arith) al (λ q w. inr w) in ground arith in
    let next : o + 1 ≡ suc o = omega arith in
    elim (Bool-cases (can_merge (s.page buddy))) [
      | inl yes_merge ↦
          let low = (if ltb buddy p then buddy else p) in
          let pair : IsPair o p buddy low = IsPair-of o p al in
          let ho : o < max_page_order = omega arith in
          let (i, hi, m) = listed buddy pair.apart yes_merge in
          let same_order = matched o p i (omega arith) (omega arith) hi al (own_page o p) m in
          let (ys, zs, split) = has-split buddy (free o) (rw same_order at m) in
          let rest =
            merge_blocks_in-mapped mapped n (suc o) low (omega arith)
              (round-IsPool inv o p ho al clear buddy low pair ys zs split)
              (round-IsClear inv o p ho al clear buddy low pair ys zs split) pair.aligned
              (round-IsListed inv o p ho al clear buddy low pair ys zs split listed)
              (round-IsMatched inv o p ho al clear buddy low pair ys zs split matched)
              (λ k c le small ac cov. readable k c (omega arith) small ac (λ q w.
                (round-pages inv o p ho al clear buddy low pair ys zs split q).0 (cov q w))) in
          rw (here, yes_merge, next) rest
      | inr no_merge ↦ rw (here, no_merge) refl
    ]

-- Where all these buddies are mapped, the end of the database makes no difference.
pub free_pages_in-mapped :
    (mapped : ℕ) {s : Kernel} {pool : ℕ} {free : Free}
    → IsPool s pool free
    → s.pool_lock pool ≡ 0
    → (o p : ℕ) → o < max_page_order
    → IsClear free o p
    → p % 2 ^ o ≡ 0
    → IsListed s free o p
    → IsMatched free o p
    → IsReadable mapped free o p
    → free_pages_in mapped pool (some p) o s ≡ free_pages pool (some p) o s
unfolding free_pages_in free_pages free_block
free_pages_in-mapped mapped {s} {pool} {free} inv unlocked o p small clear al listed matched
      readable =
    let fits : leb max_page_order o ≡ false = ground arith in
    let held : IsPool (locked pool s) pool free = with_locks _ inv in
    let run =
      merge_blocks_in-mapped mapped (max_page_order - 1 - o) o p (omega arith) held clear al listed
        matched readable in
    rw (fits, lock_pool_lem pool s unlocked, run) refl
