-- ===== src/Pool/Find.antt =====
-- The search of `__alloc_page_direct`: the smallest order from the wanted one on whose list holds a
-- block, and the first block of that list.
use closure_os.Base.{
  ℕ, zero, suc, ◌+◌, ◌≤◌, ◌<◌, ◌≡◌, refl, true, false, Option, none, some, List, [], ◌∷◌, ◌⊎◌, inl,
  inr, ℕ_discrete, arith,
}
use closure_os.ListHead.{page_list, free_head, list_del, list_empty}
use closure_os.ListHead.Ring.{IsRing, list_empty_iff}
use closure_os.Kernel.{Kernel, Run, ok, on_links}
use closure_os.Pool.{max_page_order, Block, find_block, take_first}
use closure_os.Pool.Inv.{Free, nodes, IsPool}

-- The block at the front of the list of order `order`, and the outcome of the search for it.
pub record Found (s : Kernel) (pool : ℕ) (free : Free) (from : ℕ) (run : Run (Option Block))
    : Type 0 where
  pub order : ℕ
  pub head : ℕ
  pub rest : List ℕ
  pub above : from ≤ order
  pub small : order < max_page_order
  pub front : free order ≡ head ∷ rest
  pub run_eq :
      run
      ≡ ok (some (record { head = head; order = order })) (on_links (list_del (page_list head)) s)

-- Every list from `from` on is empty, and the search says so and changes nothing.
pub record Exhausted {A : Type 0} (s : Kernel) (free : Free) (from : ℕ) (run : Run (Option A))
    : Type 0 where
  pub empty : (o : ℕ) → from ≤ o → o < max_page_order → free o ≡ []
  pub run_eq : run ≡ ok none s

module _ {s : Kernel} {pool : ℕ} {free : Free} (inv : IsPool s pool free) where
  front_node :
      (a p : ℕ) (ps : List ℕ)
      → a < max_page_order
      → free a ≡ p ∷ ps
      → (s.links (free_head pool a)).next ≡ page_list p
  front_node a p ps h e =
      let r : IsRing s.links (free_head pool a) (nodes (p ∷ ps)) = rw e at (inv.ring a h) in
      r.closed.0

  list_empty_at :
      (a : ℕ) (ps : List ℕ)
      → a < max_page_order
      → free a ≡ ps
      → list_empty (free_head pool a) s.links ≡ (elim ps [ [] ↦ true | p ∷ ps ↦ false ])
  unfolding list_empty
  list_empty_at a [] h e =
      (list_empty_iff (free_head pool a) (nodes []) (rw e at (inv.ring a h))).1 refl
  list_empty_at a (p ∷ ps) h e = let first = front_node a p ps h e in ground arith

  take_first_lem :
      (a p : ℕ) (ps : List ℕ)
      → a < max_page_order
      → free a ≡ p ∷ ps
      → take_first pool a s
        ≡ ok (some (record { head = p; order = a })) (on_links (list_del (page_list p)) s)
  unfolding take_first
  take_first_lem a p ps h e = rw (front_node a p ps h e)

  pub find_block_lem :
      (rounds a : ℕ)
      → rounds + a ≡ max_page_order
      → Exhausted s free a (find_block rounds pool a s)
        ⊎ Found s pool free a (find_block rounds pool a s)
  unfolding find_block
  find_block_lem zero a e = inl (record { empty = λ o h k. absurd (omega arith); run_eq = refl })
  find_block_lem (suc rounds) a e = step (free a) refl (find_block_lem rounds (a + 1) (omega arith))
    where
      step :
          (ps : List ℕ)
          → free a ≡ ps
          → Exhausted s free (a + 1) (find_block rounds pool (a + 1) s)
            ⊎ Found s pool free (a + 1) (find_block rounds pool (a + 1) s)
          → Exhausted s free a (find_block (suc rounds) pool a s)
            ⊎ Found s pool free a (find_block (suc rounds) pool a s)
      step [] f (inl none_left) = inl (record {
        empty = λ o h k. elim (ℕ_discrete a o) [
          | yes at ↦ rw (← at) f
          | no ne ↦ none_left.empty o (omega arith) k
        ];
        run_eq = rw (list_empty_at a [] (omega arith) f) none_left.run_eq;
      })
      step [] f (inr r) = inr (record {
        order = r.order;
        head = r.head;
        rest = r.rest;
        above = omega (arith, r.above);
        small = r.small;
        front = r.front;
        run_eq = rw (list_empty_at a [] (omega arith) f) r.run_eq;
      })
      step (p ∷ ps) f later = inr (record {
        order = a;
        head = p;
        rest = ps;
        above = omega arith;
        small = omega arith;
        front = f;
        run_eq =
            rw (list_empty_at a (p ∷ ps) (omega arith) f) (take_first_lem a p ps (omega arith) f);
      })
