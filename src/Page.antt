-- ===== src/Page.antt =====
-- The page operations of src/kernel/mm/page_mm.cppm: conversions between page frame numbers, pages
-- and addresses, the head of a group of pages, and the buddy of a block.
pub mod Reinit
pub mod Convert
use closure_os.Base.{
  ℕ, zero, suc, ◌+◌, ◌-◌, ◌*◌, ◌/◌, ◌%◌, ◌^◌, bit_and, bit_xor, Bool, true, false, Option, none,
  some, if◌then◌else◌,
}
use closure_os.Layout.{page_size, page_mask, word_not, physmem_base, pgdb_base}
use closure_os.Kernel.{Page, Kernel, update}
use closure_os.Atomic.{minus_one, atomic_set}

-- `enum page_type`
abbrev pub page_normal_mem : ℕ
page_normal_mem = 1

abbrev pub sizeof_page : ℕ
sizeof_page = 64

-- A `Page*` is the index of its page, so these two change the type alone.
abbrev pub page_to_pfn : ℕ → ℕ
page_to_pfn p = p

abbrev pub pfn_to_page : ℕ → ℕ
pfn_to_page pfn = pfn

-- The address that a `Page*` is.
abbrev pub page_address : ℕ → ℕ
page_address p = pgdb_base + sizeof_page * p

abbrev pub page_at_address : ℕ → ℕ
page_at_address a = (a - pgdb_base) / sizeof_page

unfoldable pub page_to_phys : ℕ → ℕ
page_to_phys p = p * page_size

unfoldable pub page_to_virt : ℕ → ℕ
unfolding page_to_phys
page_to_virt p = (physmem_base + page_to_phys p) % 2 ^ 64

unfoldable pub virt_to_phys : ℕ → ℕ
virt_to_phys addr = (addr + 2 ^ 64 - physmem_base) % 2 ^ 64

unfoldable pub phys_to_virt : ℕ → ℕ
phys_to_virt addr = (addr + physmem_base) % 2 ^ 64

unfoldable pub phys_to_page : ℕ → ℕ
phys_to_page addr = bit_and addr page_mask / page_size

unfoldable pub virt_to_page : ℕ → ℕ
unfolding virt_to_phys phys_to_page
virt_to_page addr = phys_to_page (virt_to_phys addr)

unfoldable pub get_head_page : (ℕ → Page) → ℕ → ℕ
get_head_page page p =
    if (page p).is_head
    then p
    else page_at_address
        (bit_and (page_address p) (word_not (sizeof_page * 2 ^ (page p).order - 1)))

unfoldable pub buddy_page_pfn : ℕ → ℕ → ℕ
buddy_page_pfn pfn order = bit_xor pfn (2 ^ order)

unfoldable pub get_page_buddy : ℕ → ℕ → ℕ
unfolding buddy_page_pfn
get_page_buddy p order = pfn_to_page (buddy_page_pfn (page_to_pfn p) order)

-- A round of the loop of `__reinit_page`, for page `p[i]`; both counts are those of `p` itself.
unfoldable pub reinit_one : (p i order : ℕ) → Bool → (ℕ → Page) → ℕ → Page
unfolding atomic_set
reinit_one p i order free page =
    let page₁ = update page (p + i) (record (page (p + i)) {
      is_free = free;
      order = order % 16;
      freelist = 0;
      kc = none;
      is_head = false;
    }) in
    update page₁ p (record (page₁ p) {
      ref_count = (atomic_set (page₁ p).ref_count minus_one).cell;
      map_count = (atomic_set (page₁ p).map_count minus_one).cell;
    })

-- The rounds from `i` on.
unfoldable pub reinit_loop : (rounds p i order : ℕ) → Bool → (ℕ → Page) → ℕ → Page
unfolding reinit_one
reinit_loop zero p i order free page = page
reinit_loop (suc rounds) p i order free page =
    reinit_loop rounds p (i + 1) order free (reinit_one p i order free page)

-- `PagePool::__reinit_page`
unfoldable pub reinit_page : (p order : ℕ) → Bool → (ℕ → Page) → ℕ → Page
unfolding reinit_loop
reinit_page p order free page =
    let page₁ = reinit_loop (2 ^ order) p 0 order free page in
    update page₁ p (record (page₁ p) { is_head = true })
