-- ===== src/Pool/Frame.antt =====
-- `AllocPages` leaves the caches and the words in memory alone.
use closure_os.Base.{
  ℕ, zero, suc, ◌+◌, ◌-◌, ◌≡◌, refl, ◌∙◌, Option, none, some, Bool-cases, inl, inr, leb, ◌==◌,
}
use closure_os.Kernel.{
  Kernel, Cmd, Run, ok, fault, stuck, and_then, page_of, lock_pool, unlock_pool,
}
use closure_os.ListHead.{Node, null, page_list, free_head, partial_head, full_head, list_empty}
use closure_os.Pool.{
  take_first, find_block, put_block, split_block, hand_out, alloc_page_direct, retry, alloc_pages,
  max_page_order, Block,
}
use closure_os.Page.{get_page_buddy}

abbrev Same : Kernel → Kernel → Type 0
Same s s' = (s'.cache ≡ s.cache) × (s'.words ≡ s.words)

Same-trans : (s s' s'' : Kernel) → Same s s' → Same s' s'' → Same s s''
Same-trans s s' s'' a b = (b.0 ∙ a.0, b.1 ∙ a.1)

module _ {A : Type 0} where
  -- The memory behind a command that returns.
  abbrev pub Keeps : Kernel → Run A → Type 0
  Keeps s (ok a s') = Same s s'
  Keeps s fault = Unit
  Keeps s stuck = Unit

  Keeps-after : (s s' : Kernel) → Same s s' → (run : Run A) → Keeps s' run → Keeps s run
  Keeps-after s s' a (ok _ s'') k = Same-trans s s' s'' a k
  Keeps-after s s' a fault k = tt
  Keeps-after s s' a stuck k = tt

module _ {A B : Type 0} where
  Keeps-and_then :
      (s : Kernel) (m : Run A) (f : A → Cmd B)
      → Keeps s m
      → ((a : A) (s' : Kernel) → Keeps s' (f a s'))
      → Keeps s (and_then m f)
  Keeps-and_then s (ok a s') f k next = Keeps-after s s' k (f a s') (next a s')
  Keeps-and_then s fault f k next = tt
  Keeps-and_then s stuck f k next = tt

page_of-Keeps : (m : Node) (s : Kernel) → Keeps s (page_of m s)
unfolding page_of
page_of-Keeps null s = tt
page_of-Keeps (page_list p) s = (refl, refl)
page_of-Keeps (free_head _ _) s = tt
page_of-Keeps (partial_head _) s = tt
page_of-Keeps (full_head _) s = tt

take_first-Keeps : (pool o : ℕ) (s : Kernel) → Keeps s (take_first pool o s)
unfolding take_first
take_first-Keeps pool o s =
    Keeps-and_then s (page_of (s.links (free_head pool o)).next s) _
      (page_of-Keeps (s.links (free_head pool o)).next s) (λ p s'. (refl, refl))

find_block-Keeps : (rounds pool o : ℕ) (s : Kernel) → Keeps s (find_block rounds pool o s)
unfolding find_block
find_block-Keeps zero pool o s = (refl, refl)
find_block-Keeps (suc rounds) pool o s = elim (Bool-cases (list_empty (free_head pool o) s.links)) [
  | inl empty ↦ rw empty (find_block-Keeps rounds pool (o + 1) s)
  | inr some_left ↦ rw some_left (take_first-Keeps pool o s)
]

split_block-Same : (rounds pool p o : ℕ) (s : Kernel) → Same s (split_block rounds pool p o s)
unfolding split_block
split_block-Same zero pool p o s = (refl, refl)
split_block-Same (suc rounds) pool p o s =
    let rest =
      split_block-Same rounds pool p (o - 1)
        (put_block pool (get_page_buddy p (o - 1)) (o - 1) s) in
    (rest.0, rest.1)

hand_out-Keeps :
    (pool order : ℕ) (b : Option Block) (s : Kernel) → Keeps s (hand_out pool order b s)
unfolding hand_out
hand_out-Keeps pool order none s = (refl, refl)
hand_out-Keeps pool order (some b) s = split_block-Same (b.order - order) pool b.head b.order s

alloc_page_direct-Keeps : (pool order : ℕ) (s : Kernel) → Keeps s (alloc_page_direct pool order s)
unfolding alloc_page_direct
alloc_page_direct-Keeps pool order s =
    Keeps-and_then s (find_block (max_page_order - order) pool order s) _
      (find_block-Keeps (max_page_order - order) pool order s) (hand_out-Keeps pool order)

retry-Keeps : (pool order : ℕ) (p : Option ℕ) (s : Kernel) → Keeps s (retry pool order p s)
unfolding retry
retry-Keeps pool order none s = alloc_page_direct-Keeps pool order s
retry-Keeps pool order (some p) s = (refl, refl)

lock_pool-Keeps : (pool : ℕ) (s : Kernel) → Keeps s (lock_pool pool s)
unfolding lock_pool
lock_pool-Keeps pool s = elim (Bool-cases (s.pool_lock pool == 0)) [
  | inl free ↦ rw free (refl, refl)
  | inr taken ↦ rw taken tt
]

pub alloc_pages-Keeps : (pool order : ℕ) (s : Kernel) → Keeps s (alloc_pages pool order s)
unfolding alloc_pages unlock_pool
alloc_pages-Keeps pool order s = elim (Bool-cases (leb max_page_order order)) [
  | inl big ↦ rw big (refl, refl)
  | inr small ↦ rw small (
      Keeps-and_then s (lock_pool pool s) _ (lock_pool-Keeps pool s) (λ _ s₁.
        Keeps-and_then s₁ (alloc_page_direct pool order s₁) _
          (alloc_page_direct-Keeps pool order s₁)
          (λ p s₂.
            Keeps-and_then s₂ (retry pool order p s₂) _ (retry-Keeps pool order p s₂)
              (λ q s₃. (refl, refl)))))
]
