-- ===== src/MmMain/Memory.antt =====
-- From the memory map of the boot stage to the page pool of the kernel:
-- `boot_mm_page_database_init` of src/arch/x86/boot/boot_mm.cpp, and then `mm_core_init`.
use closure_os.Base.{
  ℕ, zero, suc, ◌+◌, ◌*◌, ◌^◌, ◌≤◌, ◌<◌, ◌≡◌, subst, true, false, ◌↔◌, ◌⊎◌, ◌&&◌, ◌==◌, ltb, leb,
  some, ℕ_discrete, Bool, Bool-cases, inl, inr, arith,
}
use closure_os.Atomic.{is_negative}
use closure_os.Kernel.{Page, Kernel, ok}
use closure_os.Page.{page_normal_mem}
use closure_os.Pool.{can_merge}
use closure_os.Pool.Inv.{Covers}
use closure_os.HeapPool.{KHeapPool}
use closure_os.BootMem.{BootInfo, multiboot_memory_available}
use closure_os.BootMem.Linear.{IsMap}
use closure_os.BootMem.Database.{init_page, is_used, boot_mm_page_database_init}
use closure_os.BootMem.Pages.{IsAligned, IsIn, Based, boot_mm_page_database_init_lem}
use closure_os.PageTable.Length.{IsWhole, database_length, database_length-bound}
use closure_os.MmMain.{mm_core_init}
use closure_os.MmMain.Solid.{IsUnused, IsSolidSet, IsSolid, IsBuddyMappedSet, IsBuddyMapped}
use closure_os.MmMain.Heap.{IsStarted, mm_core_init_lem}

-- Page `q` begins in an available entry of the memory map, at or above the cursor of the boot allocator
-- and in no range that something uses.
abbrev pub IsFreeMemory : BootInfo → (curr_avail q : ℕ) → Type 0
IsFreeMemory info curr_avail q =
    ((j : ℕ) × (j < info.mmap_entry_nr)
      × IsIn info j q
      × ((info.entries j).type ≡ multiboot_memory_available))
    × (is_used info curr_avail (q * 4096) ≡ false)

-- The page database before it is set up: zeroed memory.
pub record IsBlank (s : Kernel) : Type 0 where
  pub untyped : (q : ℕ) → (s.page q).type ≡ 0
  pub headless : (q : ℕ) → (s.page q).is_head ≡ false

unused_entry :
    (type : ℕ) (used : Bool) (p : Page)
    → (((init_page type used p).type == page_normal_mem)
          && is_negative (init_page type used p).ref_count
        ≡ true)
      ↔ ((type ≡ multiboot_memory_available) × (used ≡ false))
unused_entry type used p = ground arith

-- A page begins in one of the entries from `i` on, or in none of them.
entry_of :
    (info : BootInfo) (q rounds i : ℕ)
    → ((j : ℕ) × (i ≤ j) × (j < i + rounds) × IsIn info j q)
      ⊎ ((j : ℕ) → i ≤ j → j < i + rounds → ¬ IsIn info j q)
entry_of info q zero i = inr (λ j from below there. omega arith)
entry_of info q (suc rounds) i =
    elim (Bool-cases (
      leb (info.entries i).addr (q * 4096)
      && ltb (q * 4096) ((info.entries i).addr + (info.entries i).len))) [
        | inl here ↦ inl (i, omega arith, omega arith, ground arith)
        | inr not_here ↦ elim (entry_of info q rounds (i + 1)) [
          | inl (j, from, below, there) ↦ inl (j, omega arith, omega arith, there)
          | inr nowhere ↦ inr (λ j from below there. elim (ℕ_discrete j i) [
            | yes same ↦
                let there' : IsIn info i q = subst (λ (k : ℕ). IsIn info k q) same there in
                ground arith
            | no other ↦ nowhere j (omega arith) (omega arith) there
          ])
        ]
      ]

module _ (info : BootInfo) (curr_avail : ℕ) (map : IsMap info) (aligned : IsAligned info)
    (whole : IsWhole info) (s after : Kernel) (blank : IsBlank s)
    (based : Based info curr_avail 0 info.mmap_entry_nr s.page after.page) where
  nowhere_unused :
      (q : ℕ)
      → ((j : ℕ) → 0 ≤ j → j < 0 + info.mmap_entry_nr → ¬ IsIn info j q)
      → ((after.page q).type == page_normal_mem) ≡ false
  nowhere_unused q nowhere =
      let kept = based.1 q nowhere in let untyped = blank.untyped q in ground arith

  IsUnused-IsFreeMemory :
      (q : ℕ) → IsUnused after.page (database_length info) q ↔ IsFreeMemory info curr_avail q
  IsUnused-IsFreeMemory q = (
    (λ (below, test). elim (entry_of info q info.mmap_entry_nr 0) [
      | inl (j, from, inside, there) ↦
          let made = based.0 j q from inside there in
          let (available, unused) =
            (unused_entry (info.entries j).type (is_used info curr_avail (q * 4096)) (s.page q)).0
              (rw made at test) in
          ((j, omega arith, there, available), unused)
      | inr nowhere ↦ let untyped = nowhere_unused q nowhere in absurd (ground arith)
    ]),
    (λ ((j, inside, there, available), unused).
        let made = based.0 j q (omega arith) (omega arith) there in
        (
          database_length-bound info j q map aligned whole inside there,
          rw made (
              (unused_entry (info.entries j).type (is_used info curr_avail (q * 4096)) (s.page q)).1
                (available, unused)),
        )),
  )

  unmerged : (q : ℕ) → can_merge (after.page q) ≡ false
  unfolding can_merge
  unmerged q = elim (entry_of info q info.mmap_entry_nr 0) [
    | inl (j, from, inside, there) ↦
        let made = based.0 j q from inside there in let headless = blank.headless q in ground arith
    | inr nowhere ↦ let untyped = nowhere_unused q nowhere in ground arith
  ]

  solid : IsSolidSet (IsFreeMemory info curr_avail) → IsSolid after.page (database_length info)
  solid memory k w q i small al fw fi wi wq = (IsUnused-IsFreeMemory q).1 (
      memory k w q i small al ((IsUnused-IsFreeMemory w).0 fw) ((IsUnused-IsFreeMemory i).0 fi) wi
        wq)

  buddies :
      IsBuddyMappedSet (IsFreeMemory info curr_avail) (database_length info)
      → IsBuddyMapped after.page (database_length info)
  buddies mapped k c small al all =
      mapped k c small al (λ q w. (IsUnused-IsFreeMemory q).0 (all q w))

  -- The kernel's memory manager on this page database.
  pub based_to_pool :
      (pool : ℕ) (h : KHeapPool)
      → IsSolidSet (IsFreeMemory info curr_avail)
      → IsBuddyMappedSet (IsFreeMemory info curr_avail) (database_length info)
      → (h' : KHeapPool) × (final : Kernel) × (mm_core_init (database_length info) pool h after
          ≡ ok h' final)
        × (started : IsStarted after.page (database_length info) pool h' final) × ((q : ℕ)
            → Covers started.filled.lists q ↔ IsFreeMemory info curr_avail q)
  based_to_pool pool h memory mapped =
      let (h', final, run, started) =
        mm_core_init_lem (database_length info) pool h after unmerged (solid memory)
          (buddies mapped) in
      (
        h',
        final,
        run,
        started,
        λ q.
            let unused = IsUnused-IsFreeMemory q in
            let pages = started.filled.pages q in
            ((λ c. unused.0 (pages.0 c).1), (λ free. let u = unused.1 free in pages.1 (u.0, u))),
      )

-- The page database is set up from a memory map in order whose entries begin and end at pages, in zeroed
-- memory, with fuel for the pages below 2 ^ 52, and it has the length that `boot_mm_pgtable_init` gives
-- it for the map, up to the largest end of an entry. No block below the largest order has a page that is
-- not free memory in its lower half while its first page and a page of its upper half are; and the buddy
-- of each aligned block below the largest order that only has free memory is mapped with the page
-- database. Then `boot_mm_page_database_init` and `mm_core_init` return without a page fault, the memory
-- manager is started, and the free blocks of its page pool have exactly the pages of free memory: those
-- of available entries that are at or above the cursor of the boot allocator and in no used range.
pub boot_to_pool :
    (fuel : ℕ) (info : BootInfo) (curr_avail pool : ℕ) (h : KHeapPool) (s : Kernel)
    → IsMap info
    → IsAligned info
    → IsWhole info
    → 2 ^ 40 ≤ fuel
    → IsBlank s
    → IsSolidSet (IsFreeMemory info curr_avail)
    → IsBuddyMappedSet (IsFreeMemory info curr_avail) (database_length info)
    → (based : Kernel) × (h' : KHeapPool) × (after : Kernel) × (boot_mm_page_database_init
          (suc fuel)
          info
          curr_avail
          s
        ≡ some based)
      × (mm_core_init (database_length info) pool h based ≡ ok h' after)
      × (started : IsStarted based.page (database_length info) pool h' after) × ((q : ℕ)
          → Covers started.filled.lists q ↔ IsFreeMemory info curr_avail q)
boot_to_pool fuel info curr_avail pool h s map aligned whole enough blank memory mapped =
    let (mid, run, based) =
      boot_mm_page_database_init_lem fuel info curr_avail s map aligned enough in
    let (h', after, run', started, pages) =
      based_to_pool info curr_avail map aligned whole s mid blank based pool h memory mapped in
    (mid, h', after, run, run', started, pages)
