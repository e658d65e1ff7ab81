-- ===== src/Pool/Take.antt =====
-- Taking a block off its free list.
use closure_os.Base.{
  ℕ, ◌<◌, ◌≡◌, ◌≢◌, ◌↔◌, sym, ◌∙◌, true, false, ◌||◌, List, ◌∷◌, ◌++◌, ◌⊎◌, inl, inr, arith,
  ℕ_discrete,
}
use closure_os.ListHead.{Node, Links, page_list, free_head, list_del}
use closure_os.ListHead.Segment.{Segment-split, IsApart, IsDistinct-without, IsApart-append}
use closure_os.ListHead.Ring.{IsRing, IsRing-frame}
use closure_os.ListHead.Ring.Del.{list_del-IsRing, list_del-same, prev-ne, next-ne}
use closure_os.Kernel.{Kernel, on_links}
use closure_os.Pool.{max_page_order}
use closure_os.Pool.Inv.{
  Free, has, nodes, Within, IsPool, IsClear, Covers, IsListed, IsAllListed, not-has_of_apart,
  All-nodes, IsApart-nodes_of, pull, pull_self, pull-other, nodes-append, has-append,
}
use closure_os.Pool.Put.{own_page}

module _ {s : Kernel} {pool : ℕ} {free : Free} (inv : IsPool s pool free) (o p : ℕ) (ys zs : List ℕ)
    (ho : o < max_page_order) (e : free o ≡ ys ++ p ∷ zs) where
  abbrev removed : Links
  removed = list_del (page_list p) s.links

  abbrev left : Free
  left = pull free o (ys ++ zs)

  old-IsRing : IsRing s.links (free_head pool o) (nodes ys ++ page_list p ∷ nodes zs)
  old-IsRing =
      let r : IsRing s.links (free_head pool o) (nodes (ys ++ p ∷ zs)) = rw (← e) (inv.ring o ho) in
      rw (nodes-append ys (p ∷ zs)) at r

  -- The block stands on its list.
  listed : has p (free o) ≡ true
  listed = rw e (rw (has-append p ys (p ∷ zs)) (ground arith))

  gone : has p (ys ++ zs) ≡ false
  gone =
      let (_, before, after) =
        IsDistinct-without (nodes ys) (page_list p) (nodes zs) old-IsRing.distinct.1 in
      rw (has-append p ys zs)
        (ground (arith, not-has_of_apart p ys before, not-has_of_apart p zs after))

  member : (q : ℕ) → has q (ys ++ zs) ≡ true → has q (ys ++ p ∷ zs) ≡ true
  member q m =
      let m' : (has q ys || has q zs) ≡ true = sym (has-append q ys zs) ∙ m in
      has-append q ys (p ∷ zs) ∙ ground arith

  -- What is left on the lists was there before, and is not the block taken.
  pub has-left :
      (o' p' : ℕ) → has p' (left o') ≡ true → (has p' (free o') ≡ true) × ((o ≡ o') → p ≢ p')
  has-left o' p' m = elim (ℕ_discrete o o') [
    | yes eo ↦
        let here : has p' (ys ++ zs) ≡ true = ground arith in
        (rw (← eo) (rw e (member p' here)), λ _ ep. ground (arith, gone, here))
    | no ne ↦ ((rw (pull-other free o (ys ++ zs) o' ne) at m), λ eo. absurd (ne eo))
  ]

  -- Nothing but the nodes of order `o` is written.
  away_same :
      (m : Node)
      → m ≢ free_head pool o
      → ((y : ℕ) → has y (free o) ≡ true → m ≢ page_list y)
      → removed m ≡ s.links m
  away_same m ne apart =
      let all : IsApart m (nodes (ys ++ p ∷ zs)) = rw (← e) (IsApart-nodes_of m (free o) apart) in
      let (before, after) =
        IsApart-append m (nodes ys) (nodes (p ∷ zs)) (rw (nodes-append ys (p ∷ zs)) at all) in
      let (front, back) =
        Segment-split s.links (free_head pool o) (nodes ys) (page_list p) (nodes zs)
          (free_head pool o) old-IsRing.closed in
      list_del-same s.links (page_list p) m
        (prev-ne s.links m (free_head pool o) (nodes ys) (page_list p) front (ne, before))
        (next-ne s.links m (page_list p) (nodes zs) (free_head pool o) back after.1 ne)

  removed-IsRing :
      (o' : ℕ) → o' < max_page_order → IsRing removed (free_head pool o') (nodes (left o'))
  removed-IsRing o' h = elim (ℕ_discrete o o') [
    | yes eo ↦ rw (← eo) (
        rw (pull_self free o (ys ++ zs)) (
          rw (nodes-append ys zs) (
            list_del-IsRing s.links (free_head pool o) (nodes ys) (page_list p) (nodes zs)
              old-IsRing)))
    | no ne ↦ rw (pull-other free o (ys ++ zs) o' ne) (
        IsRing-frame s.links removed (free_head pool o') (nodes (free o')) (inv.ring o' h)
          (away_same (free_head pool o') (λ eh. ground arith) (λ y m. λ eh. cc))
          (All-nodes s.links removed (free o') (λ x m.
            away_same (page_list x) (λ eh. cc)
              (λ y my.
                ground (arith, inv.apart o y o' x x ho h my m, own_page o x, own_page o' x)))))
  ]

  pub left-or-taken :
      (o' p' : ℕ) → has p' (free o') ≡ true → (has p' (left o') ≡ true) ⊎ ((o ≡ o') × (p ≡ p'))
  left-or-taken o' p' m = elim (ℕ_discrete o o') [
    | yes eo ↦
        let here : has p' (ys ++ p ∷ zs) ≡ true = rw (← e) (rw eo m) in
        let parts : (has p' ys || has p' (p ∷ zs)) ≡ true =
          sym (has-append p' ys (p ∷ zs)) ∙ here in
        elim (ℕ_discrete p p') [
          | yes ep ↦ inr (eo, ep)
          | no np ↦
              inl
                (rw (← eo) (rw (pull_self free o (ys ++ zs)) (has-append p' ys zs ∙ ground arith)))
        ]
    | no ne ↦ inl (rw (pull-other free o (ys ++ zs) o' ne) m)
  ]

  pub take-IsClear : IsClear left o p
  take-IsClear o' p' q h m w w' =
      let (old, ne) = has-left o' p' m in
      let (eo, ep) = inv.apart o p o' p' q ho h listed old w w' in ne eo ep

  pub take-IsPool : IsPool (on_links (list_del (page_list p)) s) pool left
  take-IsPool = record {
    ring = removed-IsRing;
    block = λ o' p' h m. inv.block o' p' h (has-left o' p' m).0;
    apart = λ o₁ p₁ o₂ p₂ q h₁ h₂ m₁ m₂ w₁ w₂.
        inv.apart o₁ p₁ o₂ p₂ q h₁ h₂ (has-left o₁ p₁ m₁).0 (has-left o₂ p₂ m₂).0 w₁ w₂;
  }

  -- The pages of the lists were those of the lists that are left and of the block taken.
  pub Covers-pull : (q : ℕ) → (Covers left q ⊎ Within o p q) ↔ Covers free q
  Covers-pull q = (
    elim [
      | inl c ↦ record {
        order = c.order;
        head = c.head;
        small = c.small;
        listed = (has-left c.order c.head c.listed).0;
        within = c.within;
      }
      | inr w ↦ record { order = o; head = p; small = ho; listed = listed; within = w }
    ],
    λ c. elim (left-or-taken c.order c.head c.listed) [
      | inl m ↦ inl (record {
        order = c.order;
        head = c.head;
        small = c.small;
        listed = m;
        within = c.within;
      })
      | inr (eo, ep) ↦ inr (rw (eo, ep) c.within)
    ],
  )

  -- Without the block, the lists still have every page that says it heads a free block elsewhere.
  pub take-IsListed : IsAllListed s free → IsListed (on_links (list_del (page_list p)) s) left o p
  take-IsListed all q out can =
      let (i, hi, m) = all q can in
      (
        i,
        hi,
        elim (left-or-taken i q m) [
          | inl here ↦ here
          | inr (_, ep) ↦ absurd (out (rw (← ep) (own_page o p)))
        ],
      )
