-- ===== src/Cache/Refill.antt =====
-- How `__internal_obj_alloc` gets a new block from a page pool, slices it, and takes its first object.
use closure_os.Base.{
  ℕ, zero, suc, ◌+◌, ◌-◌, ◌*◌, ◌%◌, ◌^◌, ◌≤◌, ◌<◌, ◌≡◌, ◌≢◌, refl, ◌∙◌, ap, true, Option, none,
  some, arith,
}
use closure_os.Kernel.{Page, KMemCache, Kernel, Cmd, ok, pure, ◌>>=◌, update, update_self}
use closure_os.Page.{page_to_virt, get_head_page}
use closure_os.Pool.{alloc_pages, get_page}
use closure_os.Cache.{
  alloc_from, internal_obj_alloc, page_obj_slicing, make_current, slice_loop, pop_object,
}
use closure_os.Cache.Slice.{IsChain, objects, slice_loop_lem}
use closure_os.Cache.Reuse.{pop_lem}

-- Cache `k` has `m` objects left of the block at `p`, whose last object it has handed out.
pub record IsServed (a : Kernel) (k p m sz : ℕ) (after : Kernel) : Type 0 where
  pub current : (after.cache k).current ≡ some p
  pub chain : IsChain after.words (after.cache k).freelist (objects (page_to_virt p) sz m)
  pub count : (after.page p).obj_nr ≡ m
  pub owner : (after.page p).kc ≡ some k
  pub others : (q : ℕ) → p ≢ q → after.page q ≡ a.page q
  pub other_caches : (j : ℕ) → k ≢ j → after.cache j ≡ a.cache j
  pub links : after.links ≡ a.links
  pub locks : after.pool_lock ≡ a.pool_lock

get_head_page-head : (p : ℕ) (page : ℕ → Page) → (page p).is_head ≡ true → get_head_page page p ≡ p
unfolding get_head_page
get_head_page-head p page head = rw head refl

-- `get_page` of the first page of a block counts at that page.
abbrev pub counted : ℕ → Kernel → Kernel
counted p s = record s {
  page = update s.page p (record (s.page p) { ref_count = ((s.page p).ref_count + 1) % 2 ^ 32 });
}

pub get_page-head : (p : ℕ) (s : Kernel) → (s.page p).is_head ≡ true → get_page p s ≡ counted p s
unfolding get_page
get_page-head p s head =
    ap
      (λ (h : ℕ). record s {
        page =
            update s.page h (record (s.page h) { ref_count = ((s.page h).ref_count + 1) % 2 ^ 32 });
      })
      (get_head_page-head p s.page head)

mul-le : (n sz : ℕ) → 0 < sz → n ≤ n * sz
mul-le n sz pos = grind arith

module _ (k p m sz : ℕ) (a : Kernel) (objs : (a.cache k).page_obj_nr ≡ suc m)
    (size : (a.cache k).obj_sz ≡ sz) (head : (a.page p).is_head ≡ true) (pos : 0 < sz)
    (base : 0 < page_to_virt p) (fits : page_to_virt p + suc m * sz < 2 ^ 64) where
  abbrev sliced : ℕ × (ℕ → ℕ)
  sliced = slice_loop (suc m) sz 0 (page_to_virt p) a.words

  sliced-IsChain : IsChain sliced.1 sliced.0 (objects (page_to_virt p) sz (suc m))
  sliced-IsChain = slice_loop_lem (suc m) (page_to_virt p) sz a.words base pos fits

  abbrev pub labelled : Kernel
  labelled = record a {
    words = sliced.1;
    page = update a.page p (record (a.page p) { obj_nr = suc m; freelist = sliced.0; kc = some k });
  }

  pub page_obj_slicing_lem : page_obj_slicing k p a ≡ counted p labelled
  unfolding page_obj_slicing
  page_obj_slicing_lem = rw (objs, size) (get_page-head p labelled (ground arith))

  abbrev pub current : Kernel
  current = make_current k p (counted p labelled)

  -- What the second round finds.
  pub served : Kernel
  served = (pop_object k p current).1

  link : (current.cache k).freelist ≡ page_to_virt p + m * sz
  link =
      let first : (current.cache k).freelist ≡ sliced.0 = ground arith in first ∙ sliced-IsChain.0

  served-freelist : (served.cache k).freelist ≡ sliced.1 (page_to_virt p + m * sz)
  unfolding served pop_object
  served-freelist =
      let rest : (served.cache k).freelist ≡ sliced.1 (current.cache k).freelist =
        ap (λ (c : KMemCache). c.freelist) (update_self current.cache k _) in
      rest ∙ ap sliced.1 link

  served-count : (served.page p).obj_nr ≡ m
  unfolding served pop_object
  served-count =
      let small : suc m ≤ suc m * sz = mul-le (suc m) sz pos in
      let before : (current.page p).obj_nr ≡ suc m = ground arith in
      let after : (served.page p).obj_nr ≡ ((current.page p).obj_nr + 2 ^ 64 - 1) % 2 ^ 64 =
        ap (λ (q : Page). q.obj_nr) (update_self current.page p _) in
      after ∙ omega (arith, before, small, fits)

  pub served-IsServed : IsServed a k p m sz served
  unfolding served pop_object
  served-IsServed = record {
    current = ground arith;
    chain = rw served-freelist sliced-IsChain.2;
    count = served-count;
    owner = ground arith;
    others = λ q ne. ground arith;
    other_caches = λ j ne. ground arith;
    links = refl;
    locks = refl;
  }

  -- The second round takes the last object of the block.
  pub second_round :
      (fuel : ℕ) → internal_obj_alloc (suc fuel) k current ≡ ok (page_to_virt p + m * sz) served
  unfolding served pop_object
  second_round fuel =
      let pos' : 0 < (current.cache k).freelist = omega (arith, link, base) in
      pop_lem fuel k p current (ground arith) pos' ∙ ap (λ (o : ℕ). ok o served) link

-- What `__internal_page_alloc` does at slot `i`.
abbrev at_slot : (rounds i order : ℕ) → (ℕ → Option ℕ) → Option ℕ → Cmd (Option ℕ)
at_slot rounds i order pools o = elim o as (λ _. Cmd (Option ℕ)) [
  | none ↦ alloc_from rounds (i + 1) order pools
  | some pool ↦ alloc_pages pool order >>= λ new_page. elim new_page [
    | none ↦ alloc_from rounds (i + 1) order pools
    | some p ↦ pure (some p)
  ]
]

alloc_from-at_slot :
    (rounds i order : ℕ) (pools : ℕ → Option ℕ) (o : Option ℕ) (s : Kernel)
    → pools i ≡ o
    → alloc_from (suc rounds) i order pools s ≡ at_slot rounds i order pools o s
unfolding alloc_from
alloc_from-at_slot rounds i order pools o s e =
    ap (λ (o' : Option ℕ). at_slot rounds i order pools o' s) e

alloc_from-none :
    (rounds i order : ℕ) (pools : ℕ → Option ℕ) (s : Kernel)
    → ((j : ℕ) → i ≤ j → j < i + rounds → pools j ≡ none)
    → alloc_from rounds i order pools s ≡ ok none s
unfolding alloc_from
alloc_from-none zero i order pools s empty = refl
alloc_from-none (suc rounds) i order pools s empty =
    alloc_from-at_slot rounds i order pools none s (empty i (omega arith) (omega arith))
    ∙ alloc_from-none rounds (i + 1) order pools s (λ j le lt. empty j (omega arith) (omega arith))

module _ (pool order : ℕ) (pools : ℕ → Option ℕ) (s after : Kernel) (first : pools 0 ≡ some pool)
    (others : (i : ℕ) → 0 < i → i < 16 → pools i ≡ none) where
  -- The only pool has no block.
  pub alloc_from-exhausted :
      alloc_pages pool order s ≡ ok none after → alloc_from 16 0 order pools s ≡ ok none after
  alloc_from-exhausted run =
      alloc_from-at_slot 15 0 order pools (some pool) s first
      ∙ rw run
          (alloc_from-none 15 1 order pools after (λ j le lt. others j (omega arith) (omega arith)))

  -- It has one.
  pub alloc_from-found :
      (p : ℕ)
      → alloc_pages pool order s ≡ ok (some p) after
      → alloc_from 16 0 order pools s ≡ ok (some p) after
  alloc_from-found p run = alloc_from-at_slot 15 0 order pools (some pool) s first ∙ rw run refl
