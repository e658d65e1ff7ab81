-- ===== src/BootStart/Init.antt =====
-- What `boot_mm_init` of src/arch/x86/boot/boot_mm.cpp leaves for the kernel.
use closure_os.Base.{
  ℕ, suc, ◌*◌, ◌/◌, ◌^◌, ◌≤◌, ◌<◌, ◌≡◌, ◌≢◌, ◌+◌, zero, ◌%◌, ℕ_discrete, Bool-cases, refl, sym, ap,
  subst, ◌∙◌, Bool, true, false, ◌||◌, Option, none, some, List, ◌⊎◌, inl, inr, ltb, arith,
}
use closure_os.BootMem.Database.{init_page}
use closure_os.Kernel.{Page, Kernel}
use closure_os.BootMem.{
  MultibootMmapEntry, Elf64Shdr, BootInfo, err_ptr, enomem, addr_is_in_used_range,
}
use closure_os.BootMem.Linear.{IsMap}
use closure_os.BootMem.Pages.{IsAligned, IsIn, Based, boot_mm_page_database_init_lem}
use closure_os.PageTable.Length.{
  Gives, IsWhole, database_length, database_length-bound, boot_mm_pgtable_init-length,
}
use closure_os.Page.{page_address}
use closure_os.PageTable.{lookup, Boot, Outcome, ok, err, halted, unfinished}
use closure_os.PageTable.Next.{IsReady}
use closure_os.PageTable.Tree.{Label, Labels, IsTree}
use closure_os.PageTable.Map.{IsTables}
use closure_os.PageTable.Init.{KernelMap}
use closure_os.PageTable.Runs.{Runs, Failed}
use closure_os.PageTable.Entries.{IsSmall}
use closure_os.PageTable.Sections.{has_unknown}
use closure_os.PageTable.Kernel.{IsKernelMap, boot_mm_pgtable_init_lem}
use closure_os.BootStart.{
  Started, initialized, no_database, wild_write, has_page, after_tables, start_with, with_pages,
  Tags, boot_info, boot_mm_init, returned, find_tags, InfoTag,
}

-- No page of the page tables is free in the page database.
abbrev pub TablesUsed : BootInfo → (root : ℕ) → Boot → Kernel → Type 0
TablesUsed info root after s =
    (label : Labels) × IsTree root label after
    × ((t : ℕ) (q : Label) (j : ℕ)
        → label t ≡ some q
        → j < info.mmap_entry_nr
        → IsIn info j (t / 4096)
        → (s.page (t / 4096)).ref_count ≡ 0)

-- The tables are below the cursor of the allocator, where every page counts as used.
tables_used :
    (info : BootInfo) (fuel root : ℕ) (after : Boot) (s s₁ : Kernel)
    → IsTables info fuel root after
    → Based info after.cursor.curr_avail 0 info.mmap_entry_nr s.page s₁.page
    → TablesUsed info root after s₁
tables_used info fuel root after s s₁ (label, tree, ready) (set, kept) = (
  label,
  tree,
  λ t q j lab below there.
      let placed = tree.placed t q lab in
      let used : ltb (t / 4096 * 4096) after.cursor.curr_avail ≡ true = ground arith in
      ap (λ (p : Page). p.ref_count) (set j (t / 4096) (omega arith) (omega arith) there)
      ∙ ap
          (λ (u : Bool).
            (init_page (info.entries j).type (u || addr_is_in_used_range info (t / 4096 * 4096))
              (s.page (t / 4096))).ref_count)
          used
      ∙ ground arith,
)

-- Whether the memory map has an entry that is not empty.
has_page_lem :
    (info : BootInfo) (rounds i : ℕ)
    → IsMap info
    → i + rounds ≤ info.mmap_entry_nr
    → ((has_page rounds i info ≡ true)
        × ((j : ℕ) × (j < info.mmap_entry_nr) × (0 < (info.entries j).len)))
      ⊎ ((has_page rounds i info ≡ false)
          × ((j : ℕ) → i ≤ j → j < i + rounds → (info.entries j).len ≡ 0))
unfolding has_page
has_page_lem info zero i map inside = inr (refl, λ j from below. absurd (omega arith))
has_page_lem info (suc rounds) i map inside =
    let entry = info.entries i in
    let low : entry.addr + entry.len < 2 ^ 52 = map.0 i (omega arith) in
    let end_eq : (entry.addr + entry.len) % 2 ^ 64 ≡ entry.addr + entry.len = omega arith in
    elim (Bool-cases (ltb entry.addr (entry.addr + entry.len))) [
      | inl some_page ↦ inl (rw (end_eq, some_page) refl, (i, omega arith, ground arith))
      | inr empty ↦
          let none_here : entry.len ≡ 0 = ground arith in
          elim (has_page_lem info rounds (i + 1) map (omega arith)) [
            | inl (found, there) ↦ inl (rw (end_eq, empty) found, there)
            | inr (missing, later) ↦ inr (
              rw (end_eq, empty) missing,
              λ j from below. elim (ℕ_discrete j i) [
                | yes same ↦ rw same none_here
                | no other ↦ later j (omega arith) (omega arith)
              ],
            )
          ]
    ]

-- The page table and the page database are set up: the database is as long as the memory map makes it,
-- the descriptor of each page of an entry is mapped and has been set, and no page of the tables is free.
abbrev pub IsInitialized :
    BootInfo → (fuel : ℕ) → Kernel → KernelMap → (after : Boot) → (s₁ : Kernel) → Type 0
IsInitialized info fuel s m after s₁ =
    IsKernelMap info fuel m after
    × (m.pgdb_page_nr ≡ database_length info)
    × ((j q : ℕ)
        → j < info.mmap_entry_nr
        → IsIn info j q
        → lookup 3 m.boot_kern_pgtable (page_address q) after.word ≢ 0)
    × Based info after.cursor.curr_avail 0 info.mmap_entry_nr s.page s₁.page
    × TablesUsed info m.boot_kern_pgtable after s₁

-- How the two calls of `boot_mm_init` end.
abbrev pub Starts : BootInfo → (fuel : ℕ) → Kernel → Started → Type 0
Starts info fuel s run =
    ((m : KernelMap) × (after : Boot) × (s₁ : Kernel) × (run ≡ initialized m after s₁)
      × (returned run ≡ some 0)
      × IsInitialized info fuel s m after s₁)
    ⊎ ((e : ℕ) × (after : Boot) × Failed info (has_unknown info.sections) e after
        × (((run ≡ wild_write e after)
              × ((j : ℕ) × (j < info.mmap_entry_nr) × (0 < (info.entries j).len)))
            ⊎ ((run ≡ no_database e after)
                × (returned run ≡ some 0)
                × ((j : ℕ) → j < info.mmap_entry_nr → (info.entries j).len ≡ 0))))

-- The page database behind the page table, however that ended.
after_tables_lem :
    (fuel : ℕ) (info : BootInfo) (s : Kernel)
    → IsMap info
    → IsAligned info
    → IsWhole info
    → 2 ^ 40 ≤ fuel
    → (run : Outcome KernelMap)
    → Runs (IsKernelMap info (suc fuel)) (Failed info (has_unknown info.sections)) run
    → Gives (λ m. m.pgdb_page_nr ≡ database_length info) run
    → Starts info (suc fuel) s (after_tables (suc fuel) info s run)
unfolding after_tables with_pages Runs Gives
after_tables_lem fuel info s map aligned whole enough (ok m after) good length =
    let (s₁, run, pages) =
      boot_mm_page_database_init_lem fuel info after.cursor.curr_avail s map aligned enough in
    inl (
      m,
      after,
      s₁,
      ap (with_pages m after) run,
      ap (λ (o : Option Kernel). returned (with_pages m after o)) run,
      (
        good,
        length,
        λ j q inside there.
            good.2 q (rw length (database_length-bound info j q map aligned whole inside there)),
        pages,
        tables_used info (suc fuel) m.boot_kern_pgtable after s s₁ good.0 pages,
      ),
    )
after_tables_lem fuel info s map aligned whole enough (err errno after) failed length = inr (
  errno,
  after,
  failed,
  elim (has_page_lem info info.mmap_entry_nr 0 map (omega arith)) [
    | inl (found, there) ↦ inl (rw found refl, there)
    | inr (missing, empty) ↦
        inr (rw missing refl, rw missing refl, λ j inside. empty j (omega arith) (omega arith))
  ],
)
after_tables_lem fuel info s map aligned whole enough halted failed length = absurd failed
after_tables_lem fuel info s map aligned whole enough unfinished failed length = absurd failed

-- Where the tags hold a memory map in order, below 128 TB and with entries that begin and end at pages,
-- and the sections of the kernel, and there is fuel, `boot_mm_init` neither halts nor runs on for ever.
-- If it sets up the page table, it returns 0, with the direct map and a page database up to the largest
-- end of an entry: the descriptor of each page of the map is mapped and set, and no page of the page
-- tables is free. Otherwise `boot_mm_pgtable_init` failed, with `ENOMEM` when no page is left or with
-- `EFAULT` for a section of no known type. Then it comes to write a descriptor through a pointer that
-- leads to none, if an entry of the map is not empty; and if all are empty, it returns 0 all the same.
pub boot_mm_init_lem :
    (fuel mbi size : ℕ) (tags : List InfoTag) (entries : ℕ → MultibootMmapEntry)
    (sections : List Elf64Shdr) (frame_buffer : Option (ℕ × ℕ)) (b : Boot) (s : Kernel)
    → let info = boot_info mbi tags size entries sections frame_buffer in
      find_tags tags (record { mmap = none; elf_info = none })
        ≡ record { mmap = some (size, entries); elf_info = some sections }
      → IsMap info
      → IsSmall info
      → IsAligned info
      → IsWhole info
      → addr_is_in_used_range info (err_ptr enomem) ≡ false
      → IsReady info (suc fuel) b
      → 2 ^ 40 ≤ fuel
      → Starts info (suc fuel) s (boot_mm_init (suc fuel) mbi tags frame_buffer b s)
unfolding boot_mm_init start_with
boot_mm_init_lem fuel mbi size tags entries sections frame_buffer b s found map small aligned whole
      no_err ready enough =
    let info = boot_info mbi tags size entries sections frame_buffer in
    subst (Starts info (suc fuel) s)
      (ap (λ (t : Tags). start_with (suc fuel) mbi tags frame_buffer b s t.mmap t.elf_info)
        (sym found))
      (after_tables_lem fuel info s map aligned whole enough _
        (boot_mm_pgtable_init_lem info (suc fuel) b map small no_err ready)
        (boot_mm_pgtable_init-length (suc fuel) info b))
