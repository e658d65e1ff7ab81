-- ===== src/Pool/Init.antt =====
-- `PagePool::Init` makes an empty pool.
use closure_os.Base.{ℕ, zero, suc, ◌+◌, ◌≤◌, ◌<◌, ◌≡◌, ◌≢◌, refl, [], ◌∙◌, ℕ_discrete, arith}
use closure_os.ListHead.{Node, Links, free_head, list_head_init}
use closure_os.ListHead.Ring.{IsRing, list_head_init-IsRing}
use closure_os.Atomic.{reset}
use closure_os.Kernel.{Kernel, on_links}
use closure_os.Pool.{max_page_order, init_heads, init}
use closure_os.Pool.Inv.{IsPool}

list_head_init-same : (h n : Node) (l : Links) → n ≢ h → list_head_init h l n ≡ l n
unfolding list_head_init
list_head_init-same h n l ne = ground arith

-- The loop leaves what stands below its first index alone.
init_heads-below :
    (rounds pool i o : ℕ) (s : Kernel)
    → o < i
    → (init_heads rounds pool i s).links (free_head pool o) ≡ s.links (free_head pool o)
unfolding init_heads
init_heads-below zero pool i o s h = refl
init_heads-below (suc n) pool i o s h =
    init_heads-below n pool (i + 1) o (on_links (list_head_init (free_head pool i)) s) (omega arith)
    ∙ list_head_init-same (free_head pool i) (free_head pool o) s.links (λ e. ground arith)

IsRing-of_same : (l l' : Links) (h : Node) → l' h ≡ l h → IsRing l h [] → IsRing l' h []
IsRing-of_same l l' h e r = ground arith

init_heads-IsRing :
    (rounds pool i o : ℕ) (s : Kernel)
    → i ≤ o
    → o < i + rounds
    → IsRing (init_heads rounds pool i s).links (free_head pool o) []
unfolding init_heads
init_heads-IsRing zero pool i o s le h = absurd (omega arith)
init_heads-IsRing (suc n) pool i o s le h = elim (ℕ_discrete i o) [
  | yes e ↦
      let s' = on_links (list_head_init (free_head pool i)) s in
      rw (← e) (
        IsRing-of_same s'.links (init_heads n pool (i + 1) s').links (free_head pool i)
          (init_heads-below n pool (i + 1) i s' (omega arith))
          (list_head_init-IsRing (free_head pool i) s.links))
  | no ne ↦
      init_heads-IsRing n pool (i + 1) o (on_links (list_head_init (free_head pool i)) s)
        (omega arith) (omega arith)
]

init_heads-page : (rounds pool i : ℕ) (s : Kernel) → (init_heads rounds pool i s).page ≡ s.page
unfolding init_heads
init_heads-page zero pool i s = refl
init_heads-page (suc n) pool i s =
    init_heads-page n pool (i + 1) (on_links (list_head_init (free_head pool i)) s)

-- `Init` leaves the page database alone.
pub init-page : (pool : ℕ) (s : Kernel) → (init pool s).page ≡ s.page
unfolding init
init-page pool s = init_heads-page max_page_order pool 0 s

-- Whatever the memory held, `Init` leaves a well-formed pool without free blocks, its lock free.
pub init-IsPool :
    (pool : ℕ) (s : Kernel)
    → IsPool (init pool s) pool (λ _. []) × ((init pool s).pool_lock pool ≡ 0)
unfolding init reset
init-IsPool pool s = (
  record {
    ring = λ o h. init_heads-IsRing max_page_order pool 0 o s (omega arith) h;
    block = λ o p h m. absurd (ground arith);
    apart = λ o p o' p' q h h' m m' w w'. absurd (ground arith);
  },
  ground arith,
)
