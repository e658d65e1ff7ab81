-- ===== src/BootMem/Database.antt =====
-- `boot_mm_page_database_init` of src/arch/x86/boot/boot_mm.cpp: every page of the memory map gets its
-- entry in the page database.
use closure_os.Base.{
  ℕ, zero, suc, ◌+◌, ◌*◌, ◌/◌, ◌%◌, ◌^◌, ◌≤◌, ◌<◌, ◌≡◌, refl, sym, ap, ◌∙◌, Bool, true, false, ◌&&◌,
  ◌||◌, Option, none, some, ◌==◌, ltb, leb, if◌then◌else◌, Bool-cases, inl, inr, arith,
}
use closure_os.Atomic.{minus_one}
use closure_os.ListHead.{page_list, list_head_init}
use closure_os.Kernel.{Page, Kernel, update, on_links}
use closure_os.Layout.{page_size}
use closure_os.BootMem.{BootInfo, addr_is_in_used_range, multiboot_memory_available}

-- The page type of a multiboot memory type: normal, reserved, reclaimable, NVS, bad, and unknown.
abbrev pub type_of : ℕ → ℕ
type_of type = if type == 0 then 6 else if ltb 5 type then 6 else type

-- A page of an entry of type `type`; `used` tells of an available page that something uses.
abbrev pub init_page : (type : ℕ) (used : Bool) → Page → Page
init_page type used p = record p {
  migrate_type = 0;
  kc = none;
  pool = none;
  freelist = 0;
  obj_nr = 0;
  type = type_of type;
  ref_count = if type == multiboot_memory_available then (if used then 0 else minus_one) else 0;
}

abbrev pub is_used : BootInfo → (curr_avail base : ℕ) → Bool
is_used info curr_avail base = ltb base curr_avail || addr_is_in_used_range info base

-- The body of the inner loop, for the page at `base`, less the reset of the page's lock.
unfoldable pub init_one : BootInfo → (curr_avail type base : ℕ) → Kernel → Kernel
init_one info curr_avail type base s =
    let pfn = base / page_size in
    on_links (list_head_init (page_list pfn)) (record s {
      page = update s.page pfn (init_page type (is_used info curr_avail base) (s.page pfn));
    })

-- The inner loop; `none` is for want of fuel.
unfoldable pub init_entry :
    (fuel : ℕ) → BootInfo → (curr_avail type base end_addr : ℕ) → Kernel → Option Kernel
unfolding init_one
init_entry zero info curr_avail type base end_addr s = none
init_entry (suc fuel) info curr_avail type base end_addr s =
    let rest =
      init_entry fuel info curr_avail type ((base + page_size) % 2 ^ 64) end_addr
        (init_one info curr_avail type base s) in
    if ltb base end_addr then rest else some s

-- `boot_mm_page_database_init`: the entries of the memory map from `i` on.
unfoldable pub database_from :
    (rounds i fuel : ℕ) → BootInfo → (curr_avail : ℕ) → Kernel → Option Kernel
database_from zero i fuel info curr_avail s = some s
database_from (suc rounds) i fuel info curr_avail s =
    let entry = info.entries i in
    let rest = database_from rounds (i + 1) fuel info curr_avail in
    elim (init_entry fuel info curr_avail entry.type entry.addr ((entry.addr + entry.len) % 2 ^ 64)
      s) [ none ↦ none | some s₁ ↦ rest s₁ ]

unfoldable pub boot_mm_page_database_init :
    (fuel : ℕ) → BootInfo → (curr_avail : ℕ) → Kernel → Option Kernel
unfolding database_from
boot_mm_page_database_init fuel info curr_avail s =
    database_from info.mmap_entry_nr 0 fuel info curr_avail s

-- What the pages are behind the loop over an entry from `base` to `end_addr`.
abbrev pub page_after : BootInfo → (curr_avail type base end_addr : ℕ) → (ℕ → Page) → ℕ → Page
page_after info curr_avail type base end_addr page q =
    if leb base (q * 4096) && ltb (q * 4096) end_addr
    then init_page type (is_used info curr_avail (q * 4096)) (page q)
    else page q

init_one-page :
    (info : BootInfo) (curr_avail type b q : ℕ) (s : Kernel)
    → (init_one info curr_avail type (b * 4096) s).page q ≡ (
        if b == q then init_page type (is_used info curr_avail (q * 4096)) (s.page q) else s.page q)
unfolding init_one
init_one-page info curr_avail type b q s =
    let pfn : b * 4096 / page_size ≡ b = omega arith in
    elim (Bool-cases (b == q)) [
      | inl same ↦ let e : b ≡ q = ground arith in ground (arith, pfn, e)
      | inr other ↦ rw (pfn, other) refl
    ]

abbrev within : (b end_addr q : ℕ) → Bool
within b end_addr q = leb (b * 4096) (q * 4096) && ltb (q * 4096) end_addr

-- An empty range changes no page.
page_after-empty :
    (info : BootInfo) (curr_avail type b end_addr : ℕ) (page : ℕ → Page) (q : ℕ)
    → ltb (b * 4096) end_addr ≡ false
    → page q ≡ page_after info curr_avail type (b * 4096) end_addr page q
page_after-empty info curr_avail type b end_addr page q done =
    let out : within b end_addr q ≡ false = ground arith in
    sym (
      ap
        (λ (t : Bool).
          if t then init_page type (is_used info curr_avail (q * 4096)) (page q) else page q)
        out)

-- The first page, and then the rest.
page_after-init_one :
    (info : BootInfo) (curr_avail type b end_addr : ℕ) (s : Kernel) (q : ℕ)
    → ltb (b * 4096) end_addr ≡ true
    → page_after info curr_avail type
        ((b + 1) * 4096)
        end_addr
        (init_one info curr_avail type (b * 4096) s).page
        q
      ≡ page_after info curr_avail type (b * 4096) end_addr s.page q
page_after-init_one info curr_avail type b end_addr s q more =
    let set = init_one-page info curr_avail type b q s in
    elim (Bool-cases (b == q)) [
      | inl same ↦
          let e : b ≡ q = ground arith in
          let first : within b end_addr q ≡ true = ground (arith, e) in
          let past : within (b + 1) end_addr q ≡ false = ground (arith, e) in
          rw (first, past) (set ∙ rw same refl)
      | inr other ↦
          let tests : within (b + 1) end_addr q ≡ within b end_addr q = ground arith in
          let kept : (init_one info curr_avail type (b * 4096) s).page q ≡ s.page q =
            set ∙ rw other refl in
          rw (tests, kept) refl
    ]

init_entry-step :
    (fuel : ℕ) (info : BootInfo) (curr_avail type base next end_addr : ℕ) (s : Kernel)
    → ltb base end_addr ≡ true
    → (base + page_size) % 2 ^ 64 ≡ next
    → init_entry (suc fuel) info curr_avail type base end_addr s
      ≡ init_entry fuel info curr_avail type next end_addr (init_one info curr_avail type base s)
unfolding init_entry
init_entry-step fuel info curr_avail type base next end_addr s more e =
    let s₁ = init_one info curr_avail type base s in
    ap
      (λ (t : Bool).
        if t
        then init_entry fuel info curr_avail type ((base + page_size) % 2 ^ 64) end_addr s₁
        else some s)
      more
    ∙ ap (λ (b : ℕ). init_entry fuel info curr_avail type b end_addr s₁) e

-- For a page-aligned start up to 2 ^ 52, an end below 2 ^ 52 and fuel for one page more than there are, the loop
-- over an entry returns. Every page of the entry has its type and reference count set, the latter to
-- -1 exactly for available pages from `curr_avail` on that are in no used range, and belongs to no
-- pool or cache; all other pages are as before.
pub init_entry_lem :
    (fuel : ℕ) (info : BootInfo) (curr_avail type b end_addr : ℕ) (s : Kernel)
    → b * 4096 ≤ 2 ^ 52
    → end_addr < 2 ^ 52
    → end_addr ≤ (b + fuel) * 4096
    → (after : Kernel) × (init_entry (suc fuel) info curr_avail type (b * 4096) end_addr s
        ≡ some after)
      × ((q : ℕ) → after.page q ≡ page_after info curr_avail type (b * 4096) end_addr s.page q)
unfolding init_entry
init_entry_lem zero info curr_avail type b end_addr s low low_end enough =
    let done : ltb (b * 4096) end_addr ≡ false = ground arith in
    (s, rw done refl, λ q. page_after-empty info curr_avail type b end_addr s.page q done)
init_entry_lem (suc fuel) info curr_avail type b end_addr s low low_end enough =
    elim (Bool-cases (ltb (b * 4096) end_addr)) [
      | inr done ↦
          (s, rw done refl, λ q. page_after-empty info curr_avail type b end_addr s.page q done)
      | inl more ↦
          let s₁ = init_one info curr_avail type (b * 4096) s in
          let next : (b * 4096 + page_size) % 2 ^ 64 ≡ (b + 1) * 4096 = omega arith in
          let (after, run, pages) =
            init_entry_lem fuel info curr_avail type (b + 1) end_addr s₁ (ground arith) low_end
              (omega arith) in
          (
            after,
            init_entry-step (suc fuel) info curr_avail type (b * 4096) ((b + 1) * 4096) end_addr s
                  more next
                ∙ run,
            λ q. pages q ∙ page_after-init_one info curr_avail type b end_addr s q more,
          )
    ]
