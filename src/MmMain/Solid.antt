-- ===== src/MmMain/Solid.antt =====
-- Which pages `pages_pool_init` gives to the pool, and which layouts of these it can handle.
use closure_os.Base.{
  ℕ, suc, ◌+◌, ◌-◌, ◌*◌, ◌/◌, ◌%◌, ◌^◌, ◌≤◌, ◌<◌, ◌≡◌, true, inl, inr, ◌&&◌, ◌==◌, arith,
}
use native.Mathlib.Nat.{pow-suc}
use closure_os.Atomic.{is_negative}
use closure_os.Kernel.{Page}
use closure_os.Page.{page_normal_mem, get_page_buddy}
use closure_os.Page.Convert.{
  aligned_nested, aligned_cases, get_page_buddy-upper, get_page_buddy-lower,
}
use closure_os.Pool.{max_page_order}
use closure_os.Pool.Inv.{Within}
use closure_os.Pool.Put.{own_page}
use closure_os.MmMain.{pgdb_mapped}

-- The page database lets page `q` go to the pool.
abbrev pub IsUnused : (ℕ → Page) → ℕ → ℕ → Type 0
IsUnused page n q =
    (q < n) × (((page q).type == page_normal_mem) && is_negative (page q).ref_count ≡ true)

-- No block below the largest order has a page outside `F` in its lower half while its first page and a
-- page of its upper half are in `F`.
abbrev pub IsSolidSet : (ℕ → Type 0) → Type 0
IsSolidSet F =
    (k w q i : ℕ)
    → k < max_page_order - 1
    → w % 2 ^ suc k ≡ 0
    → F w
    → F i
    → Within k (w + 2 ^ k) i
    → Within k w q
    → F q

abbrev pub IsSolid : (ℕ → Page) → ℕ → Type 0
IsSolid page n = IsSolidSet (IsUnused page n)

-- The buddy of each aligned block below the largest order that only has pages of `F` has its descriptor
-- among those that are mapped for a page database of `n` pages.
abbrev pub IsBuddyMappedSet : (ℕ → Type 0) → (n : ℕ) → Type 0
IsBuddyMappedSet F n =
    (k c : ℕ)
    → k < max_page_order - 1
    → c % 2 ^ k ≡ 0
    → ((q : ℕ) → Within k c q → F q)
    → get_page_buddy c k < pgdb_mapped n

abbrev pub IsBuddyMapped : (ℕ → Page) → ℕ → Type 0
IsBuddyMapped page n = IsBuddyMappedSet (IsUnused page n) n

-- A set is solid if within each block of the largest order the pages of `F` follow each other.
pub IsSolidSet-of :
    (F : ℕ → Type 0)
    → ((w q i : ℕ) → w ≤ q → q ≤ i → w / 1024 ≡ i / 1024 → F w → F i → F q)
    → IsSolidSet F
IsSolidSet-of F convex k w q i small al fw fi wi wq =
    let ends =
      aligned_nested (suc k) 10 w (w / 1024 * 1024) (omega arith) al (omega arith) (omega arith) in
    convex w q i wq.0 (omega arith) (omega (arith, pow-suc 2 k)) fw fi

pub get_page_buddy-upper_bound : (k c : ℕ) → c % 2 ^ k ≡ 0 → get_page_buddy c k ≤ c + 2 ^ k
get_page_buddy-upper_bound k c al = elim (aligned_cases k c al) [
  | inl low ↦ let upper = get_page_buddy-upper k c low in omega (arith, upper)
  | inr high ↦ let lower = get_page_buddy-lower k c high in omega (arith, lower)
]

-- The buddies are mapped if the database has whole blocks of the largest order.
pub IsBuddyMappedSet-of :
    (F : ℕ → Type 0) (n : ℕ) → n % 1024 ≡ 0 → ((q : ℕ) → F q → q < n) → IsBuddyMappedSet F n
IsBuddyMappedSet-of F n whole inside k c small al all = elim (aligned_cases k c al) [
  | inl low ↦
      let upper = get_page_buddy-upper k c low in
      let below = inside c (all c (own_page k c)) in
      let ends =
        aligned_nested (suc k) 10 c (c / 1024 * 1024) (omega arith) low (omega arith)
          (omega arith) in
      omega (arith, upper, below, ends, pow-suc 2 k)
  | inr high ↦
      let lower = get_page_buddy-lower k c high in
      let below = inside c (all c (own_page k c)) in omega (arith, lower, below)
]
