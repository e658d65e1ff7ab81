-- ===== src/Pool/Coalesce.antt =====
-- The free blocks of a pool are as large as they can be: no two buddies are free side by side.
use closure_os.Base.{
  ℕ, zero, suc, ◌+◌, ◌-◌, ◌%◌, ◌^◌, ◌≤◌, ◌<◌, ◌≡◌, true, inl, inr, ◌∙◌, sym, dec_lt, arith,
}
use native.Mathlib.Nat.{one-le-pow, pow-suc}
use closure_os.Kernel.{Kernel}
use closure_os.Page.{get_page_buddy, page_normal_mem}
use closure_os.Page.Convert.{
  get_page_buddy-upper, get_page_buddy_self, aligned_halves, aligned_nested, aligned_below,
}
use closure_os.Pool.{can_merge, max_page_order}
use closure_os.Pool.Inv.{Free, has, Within, IsPool, Covers, has-push}
use closure_os.Pool.Put.{own_page}
use closure_os.Pool.Free.{Freed}

-- No two buddies of an order below the largest are both free blocks.
abbrev pub IsCoalesced : Free → Type 0
IsCoalesced free =
    (o p : ℕ)
    → o < max_page_order - 1
    → has p (free o) ≡ true
    → has (get_page_buddy p o) (free o) ≡ true
    → ⊥

-- The pages of the free blocks are normal memory.
abbrev pub IsNormal : Kernel → Free → Type 0
IsNormal s free = (q : ℕ) → Covers free q → (s.page q).type ≡ page_normal_mem

-- The first page of a free block is free.
pub Covers-head :
    (free : Free) (o p : ℕ) → o < max_page_order → has p (free o) ≡ true → Covers free p
Covers-head free o p h m = record {
  order = o;
  head = p;
  small = h;
  listed = m;
  within = own_page o p;
}

-- The test of `__free_pages` passes at the first page of a free block.
can_merge-IsBlock :
    {s : Kernel} {pool : ℕ} {free : Free}
    → IsPool s pool free
    → IsNormal s free
    → (o p : ℕ) → o < max_page_order
    → has p (free o) ≡ true
    → can_merge (s.page p) ≡ true
unfolding can_merge
can_merge-IsBlock {free} inv normal o p h m =
    let b = inv.block o p h m in
    let t = normal p (Covers-head free o p h m) in rw (t, b.headed, b.freed)

pub Freed-IsNormal :
    {s : Kernel} {pool : ℕ} {free : Free} {o p : ℕ} {after : Kernel}
    (f : Freed s pool free o p after)
    → IsNormal s free
    → ((q : ℕ) → Within o p q → (s.page q).type ≡ page_normal_mem)
    → IsNormal after f.lists
Freed-IsNormal f normal here q c = elim ((f.pages q).0 c) [
  | inl old ↦ f.types q ∙ normal q old
  | inr w ↦ f.types q ∙ here q w
]

-- What `FreePages` leaves behind has no free buddies if there were none before.
pub Freed-IsCoalesced :
    {s : Kernel} {pool : ℕ} {free : Free} {o p : ℕ} {after : Kernel}
    (f : Freed s pool free o p after)
    → IsCoalesced free
    → IsNormal after f.lists
    → IsCoalesced f.lists
Freed-IsCoalesced {free} {after} f coalesced normal k h small m m' =
    let w = f.whole in
    let ne : (j : ℕ)
        → k ≡ w.order
        → j ≡ get_page_buddy w.head w.order
        → has j (f.lists k) ≡ true
        → ⊥ =
      λ j e ej mj. elim f.stopped [
        | inl largest ↦ omega arith
        | inr stop ↦
            let yes = can_merge-IsBlock f.pool_ok normal k j (omega arith) mj in ground (arith)
      ] in
    elim (has-push f.others w.order w.head k h (rw f.lists_are at m)) [
      | inl (eo, eh) ↦ ne (get_page_buddy h k) (sym eo) (rw (eo, eh)) m'
      | inr old ↦
          elim (has-push f.others w.order w.head k (get_page_buddy h k) (rw f.lists_are at m')) [
            | inl (eo, eh) ↦
                let al = (f.pool_ok.block k h (omega arith) m).aligned in
                ne h (sym eo) (rw (eo, eh, get_page_buddy_self k h al)) m
            | inr old' ↦
                coalesced k h small (f.fewer k h (omega arith) old)
                  (f.fewer k (get_page_buddy h k) (omega arith) old')
          ]
    ]

-- A free block of order `k` around an aligned page begins there.
head_at :
    {s : Kernel} {pool : ℕ} {free : Free}
    → IsPool s pool free
    → (k w h : ℕ) → k < max_page_order
    → w % 2 ^ k ≡ 0
    → has h (free k) ≡ true
    → Within k h w
    → has w (free k) ≡ true
head_at {free} inv k w h small al m i =
    let ends = aligned_nested k k w h (omega arith) al (inv.block k h small m).aligned i.1 in
    let e : w ≡ h = omega arith in rw e m

-- A larger free block around the upper half of an aligned block begins at or below the lower half.
begins_below :
    {s : Kernel} {pool : ℕ} {free : Free}
    → IsPool s pool free
    → (k w : ℕ) → w % 2 ^ suc k ≡ 0
    → (c : Covers free (w + 2 ^ k)) → k < c.order
    → Covers free w
begins_below inv k w al c more = record {
  order = c.order;
  head = c.head;
  small = c.small;
  listed = c.listed;
  within = (
    elim (dec_lt w c.head) [
      | yes lt ↦
          let a = (inv.block c.order c.head c.small c.listed).aligned in
          absurd (
            omega (
              arith,
              c.within.0,
              pow-suc 2 k,
              one-le-pow k 2,
              aligned_below (suc k) c.order w c.head more al a lt,
            ))
      | no ge ↦ omega arith
    ],
    omega (arith, c.within.1),
  );
}

-- In a pool without free buddies, an aligned block whose pages are all free lies in one free block.
pub block_at_least :
    {s : Kernel} {pool : ℕ} {free : Free}
    → IsPool s pool free
    → IsCoalesced free
    → (k w : ℕ) → k < max_page_order
    → w % 2 ^ k ≡ 0
    → ((q : ℕ) → Within k w q → Covers free q)
    → (c : Covers free w) × (k ≤ c.order)
unfolding begins_below
block_at_least inv coalesced zero w small al all = (all w (own_page 0 w), omega arith)
block_at_least {free} inv coalesced (suc k) w small al all =
    let (al₁, al₂) = aligned_halves k w al in
    let double = pow-suc 2 k in
    let lower = block_at_least inv coalesced k w (omega arith) al₁ (λ q i. all q (omega arith)) in
    let upper =
      block_at_least inv coalesced k (w + 2 ^ k) (omega arith) al₂ (λ q i. all q (omega arith)) in
    join lower upper al₁ al₂
  where
    join :
        (c : Covers free w) × (k ≤ c.order)
        → (c : Covers free (w + 2 ^ k)) × (k ≤ c.order)
        → w % 2 ^ k ≡ 0
        → (w + 2 ^ k) % 2 ^ k ≡ 0
        → (c : Covers free w) × (suc k ≤ c.order)
    join (c, le) (d, le') al₁ al₂ = elim (dec_lt k c.order) [
      | yes more ↦ (c, more)
      | no same ↦ elim (dec_lt k d.order) [
        | yes more ↦ (begins_below inv k w al d more, more)
        | no same' ↦
            let e : c.order ≡ k = omega arith in
            let e' : d.order ≡ k = omega arith in
            absurd (
              coalesced k w (omega arith)
                (head_at inv k w c.head (omega arith) al₁ (rw e at c.listed) (rw e at c.within))
                (rw (get_page_buddy-upper k w al) (
                  head_at inv k (w + 2 ^ k) d.head (omega arith) al₂ (rw e' at d.listed)
                    (rw e' at d.within))))
      ]
    ]
