-- ===== src/Kernel.antt =====
-- The memory that the kernel's allocators share, and commands over it.
-- A `Page*` is kept as the index of its page in the page database, the distance `p - pgdb_base`.
use closure_os.Base.{ℕ, ◌≡◌, refl, arith, Bool, Option, ◌==◌, if◌then◌else◌}
use closure_os.ListHead.{Node, Links, null, page_list, free_head, partial_head, full_head}
use closure_os.Atomic.{try_lock, unlock}

-- `struct Page`, less its `list`, which stands in the links, and its `lock`, which nothing takes.
pub record Page : Type 0 where
  pub type : ℕ  -- 4 bits
  pub migrate_type : ℕ  -- 4 bits
  pub is_free : Bool
  pub is_head : Bool
  pub order : ℕ  -- 4 bits
  pub ref_count : ℕ  -- atomic_t
  pub map_count : ℕ  -- atomic_t
  pub freelist : ℕ  -- void **
  pub kc : Option ℕ
  pub pool : Option ℕ
  pub obj_nr : ℕ

-- `class KMemCache`, less its lists, which stand in the links. Objects are addresses, 0 is null.
pub record KMemCache : Type 0 where
  pub pools : ℕ → Option ℕ
  pub pool_nr : ℕ
  pub order : ℕ
  pub page_obj_nr : ℕ
  pub obj_sz : ℕ
  pub current : Option ℕ
  pub freelist : ℕ
  pub lock : ℕ  -- the counter of the spin lock

-- `words` holds the 64-bit words behind virtual addresses.
pub record Kernel : Type 0 where
  pub links : Links
  pub page : ℕ → Page
  pub pool_lock : ℕ → ℕ
  pub cache : ℕ → KMemCache
  pub words : ℕ → ℕ

-- The outcome of a command: a value and the new memory; a use of a pointer that leads to no object
-- of its type; or a lock that is never released.
pub data Run (A : Type 0) : Type 0 where
  ok : A → Kernel → Run A
  fault : Run A
  stuck : Run A

abbrev pub Cmd : Type 0 → Type 0
Cmd A = Kernel → Run A

abbrev pub pure : {A : Type 0} → A → Cmd A
pure a s = ok a s

module _ {A B : Type 0} where
  abbrev pub and_then : Run A → (A → Cmd B) → Run B
  and_then (ok a s) f = f a s
  and_then fault f = fault
  and_then stuck f = stuck

  infixl 5 ◌>>=◌ ◌>>◌
  abbrev pub ◌>>=◌ : Cmd A → (A → Cmd B) → Cmd B
  m >>= f = λ s. and_then (m s) f

  abbrev pub ◌>>◌ : Cmd A → Cmd B → Cmd B
  m >> f = m >>= λ _. f

abbrev pub get : Cmd Kernel
get s = ok s s

abbrev pub modify : (Kernel → Kernel) → Cmd (Unit {0})
modify f s = ok tt (f s)

abbrev pub throw : {A : Type 0} → Cmd A
throw s = fault

-- `container_of(node, &Page::list)`: the page whose `list` stands at `node`. At any other list head
-- the source makes a wild pointer; here that is a fault.
unfoldable pub page_of : Node → Cmd ℕ
page_of null s = fault
page_of (page_list p) s = ok p s
page_of (free_head _ _) s = fault
page_of (partial_head _) s = fault
page_of (full_head _) s = fault

abbrev pub update {ℓ} : {A : Type ℓ} → (ℕ → A) → ℕ → A → ℕ → A
update f i a j = if i == j then a else f j

pub update_self {ℓ} : {A : Type ℓ} (f : ℕ → A) (i : ℕ) (a : A) → update f i a i ≡ a
update_self f i a = ground arith

abbrev pub on_links : (Links → Links) → Kernel → Kernel
on_links f s = record s { links = f s.links }

abbrev pub on_pages : ((ℕ → Page) → ℕ → Page) → Kernel → Kernel
on_pages f s = record s { page = f s.page }

-- `this->lock.Lock()` of a pool, with no other processor to release the lock.
unfoldable pub lock_pool : ℕ → Cmd (Unit {0})
unfolding try_lock
lock_pool pool s =
    if (try_lock (s.pool_lock pool)).result
    then ok tt (record s { pool_lock = update s.pool_lock pool (try_lock (s.pool_lock pool)).cell })
    else stuck

unfoldable pub unlock_pool : ℕ → Kernel → Kernel
unfolding unlock
unlock_pool pool s = record s {
  pool_lock = update s.pool_lock pool (unlock (s.pool_lock pool)).cell;
}

-- The memory with a pool's lock taken.
abbrev pub locked : ℕ → Kernel → Kernel
locked pool s = record s { pool_lock = update s.pool_lock pool 1 }

pub lock_pool_lem :
    (pool : ℕ) (s : Kernel) → s.pool_lock pool ≡ 0 → lock_pool pool s ≡ ok tt (locked pool s)
unfolding lock_pool
lock_pool_lem pool s e = rw e

-- A second caller finds the lock taken and never returns.
pub lock_pool-stuck : (pool : ℕ) (s : Kernel) → s.pool_lock pool ≡ 1 → lock_pool pool s ≡ stuck
unfolding lock_pool
lock_pool-stuck pool s e = rw e

pub unlock_pool_lem :
    (pool : ℕ) (s : Kernel)
    → unlock_pool pool s ≡ record s { pool_lock = update s.pool_lock pool 0 }
unfolding unlock_pool
unlock_pool_lem pool s = refl
