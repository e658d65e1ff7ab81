-- ===== src/Cache/Reuse.antt =====
-- Objects that come back to a cache: those of the current page are handed out again, those of any
-- other page are not.
use closure_os.Base.{
  ℕ, suc, ◌+◌, ◌-◌, ◌%◌, ◌^◌, ◌<◌, ◌≡◌, ◌≢◌, refl, ap, ◌∙◌, true, false, some, ◌==◌, Bool-cases,
  inl, inr, arith,
}
use closure_os.ListHead.{Links, full_head, page_list, list_add_next, list_del}
use closure_os.Kernel.{Kernel, ok, update, update_self}
use closure_os.Cache.{
  internal_obj_alloc, internal_obj_free, malloc, free, lock_cache, unlock_cache, is_current,
  not_null, pop_object, on_cache, on_page,
}

abbrev put_back : (k page obj : ℕ) → Kernel → Kernel
put_back k page obj s = record s {
  page = update s.page page (record (s.page page) { obj_nr = ((s.page page).obj_nr + 1) % 2 ^ 64 });
  cache = update s.cache k (record (s.cache k) { freelist = obj });
  words = update s.words obj (s.cache k).freelist;
}

-- The object goes to the front of the cache's free list.
free_current :
    (k page obj : ℕ) (s : Kernel)
    → (s.cache k).current ≡ some page
    → internal_obj_free k page obj s ≡ ok tt (put_back k page obj s)
unfolding internal_obj_free
free_current k page obj s cur =
    let same : is_current page (some page) ≡ true = ground arith in rw cur (rw same refl)

abbrev pub lock_taken : ℕ → Kernel → Kernel
lock_taken k s = on_cache k (λ c. record c { lock = 1 }) s

pub lock_cache_lem :
    (k : ℕ) (s : Kernel) → (s.cache k).lock ≡ 0 → lock_cache k s ≡ ok tt (lock_taken k s)
unfolding lock_cache
lock_cache_lem k s e = rw e

-- `Free` of an object of the current page.
free_current_lem :
    (k page obj : ℕ) (s : Kernel)
    → (s.cache k).lock ≡ 0
    → (s.cache k).current ≡ some page
    → (after : Kernel) × (free k page obj s ≡ ok tt after)
      × (after.cache k ≡ record (s.cache k) { freelist = obj })
      × (after.page page ≡ record (s.page page) { obj_nr = ((s.page page).obj_nr + 1) % 2 ^ 64 })
      × (after.words obj ≡ (s.cache k).freelist)
unfolding free unlock_cache
free_current_lem k page obj s unlocked cur =
    let s₁ = lock_taken k s in
    let cur₁ : (s₁.cache k).current ≡ some page = rw (update_self s.cache k) cur in
    (
      unlock_cache k (put_back k page obj s₁),
      rw (lock_cache_lem k s unlocked, free_current k page obj s₁ cur₁),
      ground arith,
      ground arith,
      ground arith,
    )

-- `Malloc` with an object on the free list.
pub pop_lem :
    (fuel k page : ℕ) (s : Kernel)
    → (s.cache k).current ≡ some page
    → 0 < (s.cache k).freelist
    → internal_obj_alloc (suc fuel) k s ≡ ok (pop_object k page s).0 (pop_object k page s).1
unfolding internal_obj_alloc
pop_lem fuel k page s cur pos =
    let some_left : not_null (s.cache k).freelist ≡ true = ground arith in rw (some_left, cur)

malloc_pop_lem :
    (fuel k page : ℕ) (s : Kernel)
    → (s.cache k).lock ≡ 0
    → (s.cache k).current ≡ some page
    → 0 < (s.cache k).freelist
    → (after : Kernel) × (malloc (suc fuel) k s ≡ ok (s.cache k).freelist after)
      × (after.cache k ≡ record (s.cache k) { freelist = s.words (s.cache k).freelist })
      × (after.page page
          ≡ record (s.page page) { obj_nr = ((s.page page).obj_nr + 2 ^ 64 - 1) % 2 ^ 64 })
unfolding malloc unlock_cache pop_object
malloc_pop_lem fuel k page s unlocked cur pos =
    let s₁ = lock_taken k s in
    let cur₁ : (s₁.cache k).current ≡ some page = rw (update_self s.cache k) cur in
    let pos₁ : 0 < (s₁.cache k).freelist = rw (update_self s.cache k) pos in
    (
      unlock_cache k (pop_object k page s₁).1,
      rw (lock_cache_lem k s unlocked, pop_lem fuel k page s₁ cur₁ pos₁)
          (ap (λ (o : ℕ). ok o (unlock_cache k (pop_object k page s₁).1)) (ground arith)),
      ground arith,
      ground arith,
    )

-- With the cache's lock free, an object of the current page, other than null, that `Free` takes back
-- is the next one that `Malloc` hands out; the cache and the page, whose count is a 64-bit word, are
-- then as before.
pub malloc-free :
    (fuel k page obj : ℕ) (s : Kernel)
    → (s.cache k).lock ≡ 0
    → (s.cache k).current ≡ some page
    → 0 < obj
    → (s.page page).obj_nr < 2 ^ 64
    → (after : Kernel) × (after' : Kernel) × (free k page obj s ≡ ok tt after)
      × (malloc (suc fuel) k after ≡ ok obj after')
      × ((after'.cache k) ≡ s.cache k)
      × ((after'.page page) ≡ s.page page)
malloc-free fuel k page obj s unlocked cur pos small =
    let (after, run, cache_eq, page_eq, word_eq) = free_current_lem k page obj s unlocked cur in
    let again = malloc_pop_lem fuel k page after (ground arith) (ground arith) (ground arith) in
    let head : (after.cache k).freelist ≡ obj = ground arith in
    (after, again.0, run, again.1 ∙ ap (λ (o : ℕ). ok o again.0) head, ground arith, ground arith)

abbrev counted : (page : ℕ) → Kernel → Kernel
counted page s = on_page page (λ p. record p { obj_nr = (p.obj_nr + 1) % 2 ^ 64 }) s

-- What `__internal_obj_free` does with an object of another page.
free_other :
    (k page obj : ℕ) (s : Kernel)
    → is_current page (s.cache k).current ≡ false
    → ((s.page page).obj_nr + 1) % 2 ^ 64 ≢ (s.cache k).page_obj_nr
    → (l : Links) × (internal_obj_free k page obj s ≡ ok tt (record (counted page s) { links = l }))
unfolding internal_obj_free
free_other k page obj s other more =
    let s₁ = counted page s in
    let n = ((s.page page).obj_nr + 1) % 2 ^ 64 in
    let count : (s₁.page page).obj_nr ≡ n = ground arith in
    let some_left : (n == (s.cache k).page_obj_nr) ≡ false = ground arith in
    elim (Bool-cases (n == 1)) [
      | inl one ↦ (
        list_add_next (full_head k) (page_list page) (list_del (page_list page) s.links),
        rw (other, count, one) refl,
      )
      | inr not_one ↦ (s.links, rw (other, count, not_one, some_left) refl)
    ]

-- With the cache's lock free, an object of a page that is not the current one, and that is not the
-- page's last object in use, is put on no free list: `Free` returns, the free lists of the cache and of the page and all words in
-- memory, the object's link among them, are as before, and only the page's count goes up.
pub free-not_reused :
    (k page obj : ℕ) (s : Kernel)
    → (s.cache k).lock ≡ 0
    → is_current page (s.cache k).current ≡ false
    → ((s.page page).obj_nr + 1) % 2 ^ 64 ≢ (s.cache k).page_obj_nr
    → (after : Kernel) × (free k page obj s ≡ ok tt after)
      × (after.words ≡ s.words)
      × ((after.cache k) ≡ s.cache k)
      × ((after.page page) ≡ record (s.page page) { obj_nr = ((s.page page).obj_nr + 1) % 2 ^ 64 })
unfolding free unlock_cache
free-not_reused k page obj s unlocked other more =
    let s₁ = lock_taken k s in
    let same : s₁.cache k ≡ record (s.cache k) { lock = 1 } = update_self s.cache k _ in
    let (l, run) = free_other k page obj s₁ (rw same other) (rw same more) in
    let after = unlock_cache k (record (counted page s₁) { links = l }) in
    (after, rw (lock_cache_lem k s unlocked, run), refl, ground arith, ground arith)
