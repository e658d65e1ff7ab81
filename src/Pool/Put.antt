-- ===== src/Pool/Put.antt =====
-- Freeing and handing out one block: the pages of a block that no free block touches are set up, and
-- the block is put on a free list.
use closure_os.Base.{
  ℕ, ◌+◌, ◌%◌, ◌^◌, ◌<◌, ◌≡◌, ◌≢◌, Bool, true, false, ltb, leb, ◌&&◌, inl, inr, Bool-cases, arith,
  ℕ_discrete,
}
use native.Mathlib.Nat.{one-le-pow}
use closure_os.ListHead.{Links, page_list, free_head, list_add_next}
use closure_os.ListHead.Ring.{IsRing, IsRing-frame}
use closure_os.ListHead.Ring.Add.{list_add_next-IsRing, list_add_next-same}
use closure_os.Kernel.{Kernel, on_pages}
use closure_os.Page.{reinit_page}
use closure_os.Page.Reinit.{reinit_page_lem}
use closure_os.Pool.{max_page_order, put_block, can_merge}
use closure_os.Pool.Inv.{
  Free, has, nodes, Within, IsBlock, IsPool, IsClear, push, IsApart-nodes, All-nodes, ne-next,
  push_self, push-other, has-push, has-push_old, Listed, IsListedBut, IsListed, IsAllListed,
}

-- The first page of a free block lies in it.
pub own_page : (o p : ℕ) → Within o p p
own_page o p = omega (arith, one-le-pow o 2)

module _ {s : Kernel} {pool : ℕ} {free : Free} (inv : IsPool s pool free) (o p : ℕ)
    (ho : o < max_page_order) (clear : IsClear free o p) where
  -- Setting up the pages of a block that is clear of the free blocks changes none of these.
  reinit-block :
      (b : Bool) (o' p' : ℕ)
      → o' < max_page_order
      → has p' (free o') ≡ true
      → IsBlock (reinit_page p o b s.page) o' p'
  reinit-block b o' p' h m =
      let old = inv.block o' p' h m in
      let same : reinit_page p o b s.page p' ≡ s.page p' =
        ground (arith, reinit_page_lem p o b s.page p', own_page o' p', clear o' p' p' h m) in
      record {
        aligned = old.aligned;
        headed = rw same old.headed;
        freed = rw same old.freed;
        sized = rw same old.sized;
      }

  pub reinit-IsPool : (b : Bool) → IsPool (on_pages (reinit_page p o b) s) pool free
  reinit-IsPool b = record { ring = inv.ring; block = reinit-block b; apart = inv.apart }

  not_listed : (o' : ℕ) → o' < max_page_order → has p (free o') ≡ false
  not_listed o' h = elim (Bool-cases (has p (free o'))) [
    | inl m ↦ absurd (clear o' p p h m (own_page o p) (own_page o' p))
    | inr m ↦ m
  ]

  abbrev added : Links
  added = list_add_next (free_head pool o) (page_list p) s.links

  -- The nodes of another order's list are none that the insertion writes.
  other_same :
      (o' : ℕ)
      → o' < max_page_order
      → o ≢ o'
      → (x : ℕ) → has x (free o') ≡ true
      → added (page_list x) ≡ s.links (page_list x)
  other_same o' h ne x m =
      list_add_next-same s.links (free_head pool o) (page_list p) (page_list x) (λ e. cc)
        (ground (arith, not_listed o' h))
        (ne-next s.links (free_head pool o) (page_list x) (free o) (inv.ring o ho) (λ e. cc)
          (λ y my. ground (arith, inv.apart o y o' x x ho h my m, own_page o x, own_page o' x)))

  other_head : (o' : ℕ) → o ≢ o' → added (free_head pool o') ≡ s.links (free_head pool o')
  other_head o' ne =
      list_add_next-same s.links (free_head pool o) (page_list p) (free_head pool o')
        (λ e. ground arith) (λ e. cc)
        (ne-next s.links (free_head pool o) (free_head pool o') (free o) (inv.ring o ho)
          (λ e. ground arith) (λ y m. λ e. cc))

  added-IsRing :
      (o' : ℕ) → o' < max_page_order → IsRing added (free_head pool o') (nodes (push free o p o'))
  added-IsRing o' h = elim (ℕ_discrete o o') [
    | yes e ↦ rw (← e) (
        rw (push_self free o p) (
          list_add_next-IsRing s.links (free_head pool o) (page_list p) (nodes (free o))
            (inv.ring o ho) ((λ e. cc), IsApart-nodes p (free o) (not_listed o ho))))
    | no ne ↦ rw (push-other free o p o' ne) (
        IsRing-frame s.links added (free_head pool o') (nodes (free o')) (inv.ring o' h)
          (other_head o' ne) (All-nodes s.links added (free o') (other_same o' h ne)))
  ]

  new_block : p % 2 ^ o ≡ 0 → IsBlock (reinit_page p o true s.page) o p
  new_block al =
      let at = reinit_page_lem p o true s.page p in
      let inside = own_page o p in
      record { aligned = al; headed = ground arith; freed = ground arith; sized = ground arith }

  added-apart :
      (o₁ p₁ o₂ p₂ q : ℕ)
      → o₁ < max_page_order
      → o₂ < max_page_order
      → has p₁ (push free o p o₁) ≡ true
      → has p₂ (push free o p o₂) ≡ true
      → Within o₁ p₁ q
      → Within o₂ p₂ q
      → (o₁ ≡ o₂) × (p₁ ≡ p₂)
  added-apart o₁ p₁ o₂ p₂ q h₁ h₂ m₁ m₂ w₁ w₂ = elim (has-push free o p o₁ p₁ m₁) [
    | inl (e₁, f₁) ↦ elim (has-push free o p o₂ p₂ m₂) [
      | inl (e₂, f₂) ↦ (omega arith, omega arith)
      | inr old₂ ↦ absurd (clear o₂ p₂ q h₂ old₂ (rw (e₁, f₁) w₁) w₂)
    ]
    | inr old₁ ↦ elim (has-push free o p o₂ p₂ m₂) [
      | inl (e₂, f₂) ↦ absurd (clear o₁ p₁ q h₁ old₁ (rw (e₂, f₂) w₂) w₁)
      | inr old₂ ↦ inv.apart o₁ p₁ o₂ p₂ q h₁ h₂ old₁ old₂ w₁ w₂
    ]
  ]

  added-block :
      (o' p' : ℕ)
      → o' < max_page_order
      → has p' (push free o p o') ≡ true
      → p % 2 ^ o ≡ 0
      → IsBlock (reinit_page p o true s.page) o' p'
  added-block o' p' h m al = elim (has-push free o p o' p' m) [
    | inl (eo, ep) ↦ rw (← eo) (rw (← ep) (new_block al))
    | inr old ↦ reinit-block true o' p' h old
  ]

  -- A block that is clear of the free blocks becomes one of them.
  pub put_block-IsPool : p % 2 ^ o ≡ 0 → IsPool (put_block pool p o s) pool (push free o p)
  unfolding put_block
  put_block-IsPool al = record {
    ring = added-IsRing;
    block = λ o' p' h m. added-block o' p' h m al;
    apart = added-apart;
  }

-- Setting up a block and putting it on its list keeps it true that what says it heads a free block
-- stands on a list; the block's own pages need not have met this before.
pub put_block-IsListedBut :
    (except : ℕ → Type 0) (pool o p : ℕ) (s : Kernel) (free : Free)
    → o < max_page_order
    → ((q : ℕ) → (except q → ⊥) → (Within o p q → ⊥) → can_merge (s.page q) ≡ true → Listed free q)
    → IsListedBut except (put_block pool p o s) (push free o p)
unfolding put_block can_merge
put_block-IsListedBut except pool o p s free ho old q out can =
    let at = reinit_page_lem p o true s.page q in
    elim (Bool-cases (leb p q && ltb q (p + 2 ^ o))) [
      | inl inside ↦ (o, ho, rw (push_self free o p) (ground arith))
      | inr outside ↦
          let (i, hi, m) = old q out (λ w. ground arith) (ground arith) in
          (i, hi, has-push_old free o p i q m)
    ]

-- Behind an allocation no page of the block says that it is free.
pub reinit-IsAllListed :
    (o p : ℕ) (s : Kernel) (free : Free)
    → IsListed s free o p
    → IsAllListed (on_pages (reinit_page p o false) s) free
unfolding can_merge
reinit-IsAllListed o p s free old q can =
    let at = reinit_page_lem p o false s.page q in
    elim (Bool-cases (leb p q && ltb q (p + 2 ^ o))) [
      | inl inside ↦ absurd (ground arith)
      | inr outside ↦ old q (λ w. ground arith) (ground arith)
    ]
