-- ===== src/MmMain/Pages.antt =====
-- `pages_pool_init` of src/kernel/mm/mm_main.cppm: the pool behind the loop over the page database.
use closure_os.Base.{
  ℕ, zero, suc, ◌+◌, ◌-◌, ◌%◌, ◌^◌, ◌≤◌, ◌<◌, ◌≡◌, refl, true, false, ◌↔◌, ◌⊎◌, inl, inr, ◌∙◌, ap,
  subst, ◌&&◌, ◌==◌, [], some, dec_lt, Bool-cases, arith,
}
use native.Mathlib.Nat.{pow-suc, pow-le-pow_right}
use closure_os.Atomic.{is_negative}
use closure_os.Kernel.{Page, Kernel, ok}
use closure_os.Page.{get_page_buddy, page_normal_mem}
use closure_os.Page.Convert.{
  aligned_cases, aligned_halves, aligned_lower, get_page_buddy-upper, get_page_buddy-lower,
}
use closure_os.Pool
use closure_os.Pool.{can_merge, max_page_order, set_pool}
use closure_os.Pool.Inv.{Free, has, Within, IsPool, IsClear, Covers, IsListed, IsAllListed}
use closure_os.Pool.Put.{own_page}
use closure_os.Pool.Init.{init-IsPool, init-page}
use closure_os.Pool.Merge.{IsMatched}
use closure_os.Pool.Mapped.{add_pages_in, IsReadable, free_pages_in-mapped}
use closure_os.Pool.Free.{free_pages_lem}
use closure_os.Pool.Coalesce.{
  IsCoalesced, IsNormal, Covers-head, Freed-IsNormal, Freed-IsCoalesced, block_at_least,
}
use closure_os.MmMain.{pgdb_mapped, add_free_pages, pages_pool_init}
use closure_os.MmMain.Solid.{IsUnused, IsSolid, IsBuddyMapped}
use closure_os.MmMain.Owning.{
  owning, owning-other, owning-type, owning-can_merge, owning-owned, owning-IsPool, in_whole,
}

-- The pool when the loop of `pages_pool_init` has gone through the pages below `i` of `n`.
pub record IsFilled (page : ℕ → Page) (n pool i : ℕ) (s : Kernel) : Type 0 where
  pub lists : Free
  pub pool_ok : IsPool s pool lists
  pub pages : (q : ℕ) → Covers lists q ↔ ((q < i) × IsUnused page n q)
  pub listed : IsAllListed s lists
  pub normal : IsNormal s lists
  -- each free page knows the pool that it belongs to
  pub owned : (q : ℕ) → Covers lists q → (s.page q).pool ≡ some pool
  pub coalesced : IsCoalesced lists
  pub lock : s.pool_lock pool ≡ 0
  pub ahead : (q : ℕ) → i ≤ q → s.page q ≡ page q

unused_type : (page : ℕ → Page) (n i : ℕ) → IsUnused page n i → (page i).type ≡ page_normal_mem
unused_type page n i unused = ground arith

module _ {page : ℕ → Page} {n pool i : ℕ} {s : Kernel} (fill : IsFilled page n pool i s) where
  skip-IsFilled : (IsUnused page n i → ⊥) → IsFilled page n pool (i + 1) s
  skip-IsFilled used = record {
    lists = fill.lists;
    pool_ok = fill.pool_ok;
    pages = λ q. (
      (λ c. let (before, unused) = (fill.pages q).0 c in (omega arith, unused)),
      (λ (before, unused). elim (dec_lt q i) [
        | yes lt ↦ (fill.pages q).1 (lt, unused)
        | no ge ↦ let e : q ≡ i = omega arith in absurd (used (rw (← e) unused))
      ]),
    );
    listed = fill.listed;
    normal = fill.normal;
    owned = fill.owned;
    coalesced = fill.coalesced;
    lock = fill.lock;
    ahead = λ q le. fill.ahead q (omega arith);
  }

  -- A free block at the lower half of a pair whose upper half has the next page is that half.
  same_order :
      (k b j : ℕ)
      → IsSolid page n
      → IsUnused page n i
      → k < max_page_order - 1
      → j < max_page_order
      → b % 2 ^ suc k ≡ 0
      → Within k (b + 2 ^ k) i
      → has b (fill.lists j) ≡ true
      → j ≡ k
  same_order k b j solid unused small hj al w m =
      let own : Within j b b = own_page j b in
      let (_, first) = (fill.pages b).0 (Covers-head fill.lists j b hj m) in
      let (al₁, _) = aligned_halves k b al in
      let half : (q : ℕ) → Within k b q → Covers fill.lists q =
        λ q v. (fill.pages q).1 (omega arith, solid k b q i small al first unused w v) in
      let (c, le) = block_at_least fill.pool_ok fill.coalesced k b (omega arith) al₁ half in
      let (e, _) = fill.pool_ok.apart j b c.order c.head b hj c.small m c.listed own c.within in
      elim (dec_lt k j) [
        | yes more ↦
            let wide : 2 ^ suc k ≤ 2 ^ j = pow-le-pow_right (omega arith) more in
            let (before, _) = (fill.pages i).0 (record {
              order = j;
              head = b;
              small = hj;
              listed = m;
              within = omega (arith, wide, pow-suc 2 k);
            }) in
            absurd (omega arith)
        | no same ↦ omega arith
      ]

  -- The next page may be put back, whichever blocks the pages below it make up.
  next-IsMatched : IsSolid page n → IsUnused page n i → IsMatched fill.lists 0 i
  next-IsMatched solid unused k c j _ small hj al w m = elim (aligned_cases k c al) [
    | inl low ↦
        let upper = get_page_buddy-upper k c low in
        let (before, _) =
          (fill.pages (get_page_buddy c k)).0
            (Covers-head fill.lists j (get_page_buddy c k) hj m) in
        absurd (omega (arith, upper))
    | inr high ↦
        let (al', le) = aligned_lower k c high in
        same_order k (c - 2 ^ k) j solid unused small hj al' (omega arith)
          (rw (get_page_buddy-lower k c high) at m)
  ]

  before_next : (q : ℕ) → Covers fill.lists q → Within 0 i q → ⊥
  before_next q c w = let (before, _) = (fill.pages q).0 c in omega (arith, w.1)

  next_pages :
      IsUnused page n i
      → (q : ℕ) → (Covers fill.lists q ⊎ Within 0 i q) ↔ ((q < i + 1) × IsUnused page n q)
  next_pages unused q = (
    elim [
      | inl c ↦ let (before, old) = (fill.pages q).0 c in (omega arith, old)
      | inr w ↦ let e : q ≡ i = omega (arith, w.0, w.1) in (omega arith, rw e unused)
    ],
    (λ (before, old). elim (dec_lt q i) [
      | yes lt ↦ inl ((fill.pages q).1 (lt, old))
      | no ge ↦ inr (omega arith)
    ]),
  )

  -- The buddies that the next page is compared with on its way up are mapped.
  next-IsReadable :
      IsBuddyMapped page n → IsUnused page n i → IsReadable (pgdb_mapped n) fill.lists 0 i
  next-IsReadable mapped unused k c _ small al all =
      mapped k c small al (λ q w. ((next_pages unused q).0 (all q w)).1)

  -- `AddPages` of the next page, which is unused.
  add-IsFilled :
      IsSolid page n
      → IsBuddyMapped page n
      → IsUnused page n i
      → (after : Kernel) × (add_pages_in (pgdb_mapped n) pool i 0 s ≡ ok tt after)
        × IsFilled page n pool (i + 1) after
  unfolding add_pages_in set_pool
  add-IsFilled solid mapped unused =
      let s₁ = owning pool i s in
      let inv = owning-IsPool pool i fill.pool_ok in
      let clear : IsClear fill.lists 0 i = λ o p q small m w w'.
        before_next q (record { order = o; head = p; small = small; listed = m; within = w' }) w in
      let listed : IsListed s₁ fill.lists 0 i =
        λ q out can. fill.listed q (owning-can_merge pool i s q can) in
      let matched = next-IsMatched solid unused in
      let (after, ran, f) =
        free_pages_lem inv fill.lock 0 i (omega arith) clear (omega arith) listed matched in
      let run =
        free_pages_in-mapped (pgdb_mapped n) inv fill.lock 0 i (omega arith) clear (omega arith)
          listed matched (next-IsReadable mapped unused)
        ∙ ran in
      let covers : (q : ℕ) → Covers f.lists q ↔ ((q < i + 1) × IsUnused page n q) = λ q.
        let next = next_pages unused q in
        ((λ c. next.0 ((f.pages q).0 c)), (λ u. (f.pages q).1 (next.1 u))) in
      let normal =
        Freed-IsNormal f (λ q c. owning-type pool i s q ∙ fill.normal q c)
          (λ q w.
            let e : q ≡ i = omega (arith, w.0, w.1) in
            owning-type pool i s q
            ∙ rw (e, fill.ahead i (omega arith)) (unused_type page n i unused)) in
      (
        after,
        run,
        record {
          lists = f.lists;
          pool_ok = f.pool_ok;
          pages = covers;
          listed = f.listed;
          normal = normal;
          owned = λ q c. f.owners q ∙ elim ((f.pages q).0 c) [
            | inl old ↦ owning-owned pool i s q (inl (fill.owned q old))
            | inr w ↦ owning-owned pool i s q (inr (omega (arith, w.0, w.1)))
          ];
          coalesced = Freed-IsCoalesced f fill.coalesced normal;
          lock = f.lock ∙ fill.lock;
          ahead = λ q le.
              f.behind q (omega arith)
                (λ w. absurd (omega (arith, ((covers q).0 (in_whole f q w)).0)))
              ∙ owning-other pool i s q (omega arith)
              ∙ fill.ahead q (omega arith);
        },
      )

pages_pool_fill :
    (rounds i : ℕ) {page : ℕ → Page} {n pool : ℕ} {s : Kernel}
    → i + rounds ≡ n
    → IsSolid page n
    → IsBuddyMapped page n
    → IsFilled page n pool i s
    → (after : Kernel) × (add_free_pages (pgdb_mapped n) rounds i pool s ≡ ok tt after)
      × IsFilled page n pool n after
unfolding add_free_pages
pages_pool_fill zero i {page} {n} {pool} {s} e solid mapped fill =
    let last : i ≡ n = omega arith in
    (s, refl, subst (λ (m : ℕ). IsFilled page n pool m s) last fill)
pages_pool_fill (suc rounds) i {page} {n} {pool} {s} e solid mapped fill =
    elim (Bool-cases (((page i).type == page_normal_mem) && is_negative (page i).ref_count)) [
      | inl take ↦
          let (s₁, run, fill₁) = add-IsFilled fill solid mapped (omega arith, take) in
          let (after, rest, done) =
            pages_pool_fill rounds (i + 1) (omega arith) solid mapped fill₁ in
          (after, rw (fill.ahead i (omega arith), take, run) rest, done)
      | inr leave ↦
          let fill₁ = skip-IsFilled fill (λ u. ground (arith, u.1)) in
          let (after, rest, done) =
            pages_pool_fill rounds (i + 1) (omega arith) solid mapped fill₁ in
          (after, rw (fill.ahead i (omega arith), leave) rest, done)
    ]

-- If no page says that it heads a free block, if no block below the largest order has a used page in
-- its lower half while its first page and a page of its upper half are unused, and if the buddy of each
-- aligned block below the largest order that only has unused pages is mapped with the page database, then
-- `pages_pool_init` returns without a page fault, with the pool's lock free and the pool well-formed: its free blocks have
-- exactly the unused pages of normal memory in the page database, and no two buddies are free blocks
-- side by side.
pub pages_pool_init_lem :
    (n pool : ℕ) (s : Kernel)
    → ((q : ℕ) → can_merge (s.page q) ≡ false)
    → IsSolid s.page n
    → IsBuddyMapped s.page n
    → (after : Kernel) × (pages_pool_init n pool s ≡ ok tt after) × IsFilled s.page n pool n after
unfolding pages_pool_init
pages_pool_init_lem n pool s fresh solid mapped =
    let same : (q : ℕ) → (Pool.init pool s).page q ≡ s.page q =
      λ q. ap (λ (page : ℕ → Page). page q) (init-page pool s) in
    pages_pool_fill n 0 (omega arith) solid mapped (record {
      lists = λ _. [];
      pool_ok = (init-IsPool pool s).0;
      pages = λ q. ((λ c. absurd (ground (arith, c.listed))), (λ u. absurd (omega (arith, u.0))));
      listed = λ q can. absurd (ground (arith, fresh q, same q));
      normal = λ q c. absurd (ground (arith, c.listed));
      owned = λ q c. absurd (ground (arith, c.listed));
      coalesced = λ o p h m _. ground (arith, m);
      lock = (init-IsPool pool s).1;
      ahead = λ q _. same q;
    })
