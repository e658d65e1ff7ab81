-- ===== src/MmMain/Caches.antt =====
-- The caches of `kheap_pool_init` of src/kernel/mm/mm_main.cppm.
use closure_os.Base.{
  ℕ, zero, suc, ◌+◌, ◌≤◌, ◌<◌, ◌≡◌, ◌≢◌, refl, ◌∙◌, subst, List, [], ◌∷◌, length, arith,
}
use closure_os.ListHead.{Node, partial_head, full_head}
use closure_os.Kernel.{Kernel}
use closure_os.Cache.Fresh.{IsFresh, IsFresh-frame, set_up, set_up-IsFresh, set_up-Kept}
use closure_os.MmMain.{nth, init_caches}

-- The caches from `i` on, and what the loop over them leaves alone.
pub record Caches (s : Kernel) (sizes : List ℕ) (i pool : ℕ) (after : Kernel) : Type 0 where
  pub ready : (j : ℕ) → j < length sizes → IsFresh after (i + j) (nth sizes j) pool
  pub below : (j : ℕ) → j < i → after.cache j ≡ s.cache j
  pub links :
      (m : Node)
      → ((j : ℕ) → i ≤ j → (m ≢ partial_head j) × (m ≢ full_head j))
      → after.links m ≡ s.links m
  pub page : after.page ≡ s.page
  pub locks : after.pool_lock ≡ s.pool_lock

from_first :
    (P : ℕ → ℕ → Type 0) (sz : ℕ) (sizes : List ℕ) (i : ℕ)
    → P i sz
    → ((j : ℕ) → j < length sizes → P (i + 1 + j) (nth sizes j))
    → (j : ℕ) → j < suc (length sizes)
    → P (i + j) (nth (sz ∷ sizes) j)
from_first P sz sizes i first rest zero h =
    let e : i ≡ i + 0 = omega arith in subst (λ (n : ℕ). P n sz) e first
from_first P sz sizes i first rest (suc j) h =
    let e : i + 1 + j ≡ i + suc j = omega arith in
    subst (λ (n : ℕ). P n (nth sizes j)) e (rest j (omega arith))

pub init_caches-Caches :
    (sizes : List ℕ) (i pool : ℕ) (s : Kernel) → Caches s sizes i pool (init_caches sizes i pool s)
unfolding init_caches
init_caches-Caches [] i pool s = record {
  ready = λ j h. absurd (omega arith);
  below = λ j h. refl;
  links = λ m apart. refl;
  page = refl;
  locks = refl;
}
init_caches-Caches (sz ∷ sizes) i pool s =
    let s₁ = set_up i sz pool s in
    let after = init_caches sizes (i + 1) pool s₁ in
    let kept = set_up-Kept i sz pool s in
    let rest = init_caches-Caches sizes (i + 1) pool s₁ in
    record {
      ready =
          from_first (λ k size. IsFresh after k size pool) sz sizes i
            (IsFresh-frame s₁ after i sz pool (rest.below i (omega arith))
              (rest.links (partial_head i) (λ j le. ((λ e. ground arith), (λ e. ground arith))))
              (rest.links (full_head i) (λ j le. ((λ e. ground arith), (λ e. ground arith))))
              (set_up-IsFresh i sz pool s))
            rest.ready;
      below = λ j h. rest.below j (omega arith) ∙ kept.cache j (omega arith);
      links = λ m apart.
          rest.links m (λ j le. apart j (omega arith))
          ∙ kept.links m (apart i (omega arith)).0 (apart i (omega arith)).1;
      page = rest.page ∙ kept.page;
      locks = rest.locks ∙ kept.locks;
    }
