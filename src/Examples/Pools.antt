-- ===== src/Examples/Pools.antt =====
-- A page pool that is set up, given a block of eight pages, and asked for two of them.
use closure_os.Base.{
  ℕ, ◌≡◌, refl, ◌∙◌, ◌==◌, if◌then◌else◌, true, false, ◌⊎◌, none, some, [], arith,
}
use closure_os.Atomic.{minus_one}
use closure_os.ListHead.{null}
use closure_os.Kernel.{Page, KMemCache, Kernel, ok}
use closure_os.Pool.{init, free_pages, alloc_pages, free_block, can_merge, get_page, put_page}
use closure_os.Pool.Inv.{IsClear, IsListed}
use closure_os.Pool.Init.{init-IsPool}
use closure_os.Pool.Free.{Freed, free_pages_lem}
use closure_os.Pool.Alloc.{NoneLeft, Allocated, alloc_pages_lem}
use closure_os.Page.{get_head_page}
use closure_os.Pool.Merge.{IsMatched}
use closure_os.Pool.Refs.{put_page-get_page}
use closure_os.Pool.Overlap.{free_block-takes_buddy}

abbrev pub zero_page : Page
zero_page = record {
  type = 0;
  migrate_type = 0;
  is_free = false;
  is_head = false;
  order = 0;
  ref_count = 0;
  map_count = 0;
  freelist = 0;
  kc = none;
  pool = none;
  obj_nr = 0;
}

abbrev pub zero_cache : KMemCache
zero_cache = record {
  pools = λ _. none;
  pool_nr = 0;
  order = 0;
  page_obj_nr = 0;
  obj_sz = 0;
  current = none;
  freelist = 0;
  lock = 0;
}

-- The memory before anything is set up.
abbrev pub memory : Kernel
memory = record {
  links = λ n. record { prev = null; next = null };
  page = λ p. zero_page;
  pool_lock = λ pool. 7;
  cache = λ k. zero_cache;
  words = λ a. 0;
}

abbrev fresh : Kernel
fresh = init 0 memory

none_head : (q : ℕ) → can_merge (fresh.page q) ≡ false
unfolding init can_merge
none_head q = refl

nothing-IsClear : IsClear (λ _. []) 3 8
nothing-IsClear o p q small listed w w' = absurd (ground arith)

none-IsListed : IsListed fresh (λ _. []) 3 8
none-IsListed q far can = absurd (ground (arith, none_head q))

nothing-IsMatched : IsMatched (λ _. []) 3 8
nothing-IsMatched k c i le small small' al w listed = absurd (ground arith)

free_pages_example :
    (after : Kernel) × (free_pages 0 (some 8) 3 fresh ≡ ok tt after)
    × Freed fresh 0 (λ _. []) 3 8 after
free_pages_example =
    free_pages_lem (init-IsPool 0 memory).0 (init-IsPool 0 memory).1 3 8 (omega arith)
      nothing-IsClear refl none-IsListed nothing-IsMatched

-- The pool behind that call.
seeded :
    (after : Kernel) × (free_pages 0 (some 8) 3 fresh ≡ ok tt after)
    × Freed fresh 0 (λ _. []) 3 8 after
seeded =
    free_pages_lem (init-IsPool 0 memory).0 (init-IsPool 0 memory).1 3 8 (omega arith)
      nothing-IsClear refl none-IsListed nothing-IsMatched

unlocked : seeded.0.pool_lock 0 ≡ 0
unlocked = seeded.2.lock ∙ (init-IsPool 0 memory).1

alloc_pages_example :
    NoneLeft seeded.0 0 seeded.2.lists 1 (alloc_pages 0 1 seeded.0)
    ⊎ Allocated seeded.0 0 seeded.2.lists 1 (alloc_pages 0 1 seeded.0)
alloc_pages_example = alloc_pages_lem seeded.2.pool_ok unlocked 1

-- Page 4 heads a free block of one page; page 7 is in use.
abbrev clash : Kernel
clash = record memory {
  page = λ q.
      if q == 4 then record zero_page { type = 1; is_free = true; is_head = true } else zero_page;
}

page_4_free : can_merge (clash.page 4) ≡ true
unfolding can_merge
page_4_free = refl

takes_buddy_example : ((free_block 0 0 2 clash).page 7).is_free ≡ true
takes_buddy_example =
    free_block-takes_buddy 0 2 0 clash 7 (omega arith) refl page_4_free (omega arith, omega arith)

-- A page whose reference count is -1, as that of a block that is handed out.
abbrev one_user : Kernel
one_user = record memory { page = λ q. record zero_page { is_head = true; ref_count = minus_one } }

head_count : (one_user.page (get_head_page one_user.page 5)).ref_count ≡ minus_one
head_count = refl

put_page-get_page_example :
    (after : Kernel) × (put_page 5 (get_page 5 one_user) ≡ ok tt after)
    × (after.links ≡ one_user.links)
    × (after.pool_lock ≡ one_user.pool_lock)
    × ((q : ℕ) → after.page q ≡ one_user.page q)
put_page-get_page_example = put_page-get_page 5 one_user head_count
