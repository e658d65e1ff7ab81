-- ===== src/Pool/Refs.antt =====
-- Reference counts of blocks that are in use.
use closure_os.Base.{ℕ, ◌+◌, ◌%◌, ◌^◌, ◌≡◌, refl, ap, ◌∙◌, Bool-cases, inl, inr, ◌==◌, arith}
use closure_os.Atomic.{minus_one}
use closure_os.Kernel.{Kernel, Page, ok, update}
use closure_os.Page.{get_head_page}
use closure_os.Pool.{get_page, put_page}

abbrev counted : (head count : ℕ) → Kernel → Kernel
counted head count s = record s {
  page = update s.page head (record (s.page head) { ref_count = count });
}

same_head :
    (f g : ℕ → Page) (p : ℕ)
    → (f p).is_head ≡ (g p).is_head
    → (f p).order ≡ (g p).order
    → get_head_page f p ≡ get_head_page g p
unfolding get_head_page
same_head f g p eh eo = ground (arith, eh, eo)

head_counted :
    (s : Kernel) (head count p : ℕ)
    → get_head_page (counted head count s).page p ≡ get_head_page s.page p
head_counted s head count p = same_head _ _ p (ground arith) (ground arith)

get_page_lem :
    (p : ℕ) (s : Kernel)
    → (s.page (get_head_page s.page p)).ref_count ≡ minus_one
    → get_page p s ≡ counted (get_head_page s.page p) 0 s
unfolding get_page
get_page_lem p s free =
    ap (λ (n : ℕ). counted (get_head_page s.page p) n s) (ap (λ (n : ℕ). (n + 1) % 2 ^ 32) free)

put_page_lem :
    (p : ℕ) (s : Kernel)
    → (s.page (get_head_page s.page p)).ref_count ≡ 0
    → put_page p s ≡ ok tt (counted (get_head_page s.page p) minus_one s)
unfolding put_page
put_page_lem p s one = rw (one) refl

again :
    (s : Kernel) (h h' count : ℕ)
    → h' ≡ h
    → (s.page h).ref_count ≡ minus_one
    → (q : ℕ) → (counted h' minus_one (counted h count s)).page q ≡ s.page q
again s h h' count e fresh q = elim (Bool-cases (h == q)) [
  | inl same ↦ ground (arith, e, fresh, same)
  | inr other ↦ ground (arith, e, other)
]

-- A block that is handed out has the count -1. Taking a reference to it and giving it up again brings
-- the count back to -1 and frees nothing: `put_page` tests the count before its decrement, so the
-- links and the locks are as before, and every page is.
pub put_page-get_page :
    (p : ℕ) (s : Kernel)
    → (s.page (get_head_page s.page p)).ref_count ≡ minus_one
    → (after : Kernel) × (put_page p (get_page p s) ≡ ok tt after)
      × (after.links ≡ s.links)
      × (after.pool_lock ≡ s.pool_lock)
      × ((q : ℕ) → after.page q ≡ s.page q)
put_page-get_page p s fresh =
    let h = get_head_page s.page p in
    let s₁ = counted h 0 s in
    let h₁ : get_head_page s₁.page p ≡ h = head_counted s h 0 p in
    let count : (s₁.page (get_head_page s₁.page p)).ref_count ≡ 0 = ground arith in
    (
      counted (get_head_page s₁.page p) minus_one s₁,
      ap (put_page p) (get_page_lem p s fresh) ∙ put_page_lem p s₁ count,
      refl,
      refl,
      λ q. again s h (get_head_page s₁.page p) 0 h₁ fresh q,
    )
