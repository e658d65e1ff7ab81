-- ===== src/PageTable/Kernel.antt =====
-- `boot_mm_pgtable_init` of src/arch/x86/boot/boot_mm.cpp as a whole: the page database, and the table
-- that is loaded.
use closure_os.Base.{
  ℕ, zero, suc, ◌+◌, ◌-◌, ◌*◌, ◌/◌, ◌%◌, ◌^◌, ◌≤◌, ◌<◌, ◌≡◌, ◌≢◌, refl, sym, ◌∙◌, bit_or, Bool,
  true, false, ◌==◌, ltb, Bool-cases, inl, inr, arith,
}
use closure_os.Layout.{pgdb_base}
use closure_os.Page.{sizeof_page, page_address}
use closure_os.BootMem.{BootInfo, enomem, err_ptr, addr_is_in_used_range}
use closure_os.BootMem.Linear.{IsMap}
use closure_os.PageTable.{Boot, lookup}
use closure_os.PageTable.Tree.{entry-eq}
use closure_os.PageTable.Next.{IsReady}
use closure_os.PageTable.Write.{page_number}
use closure_os.PageTable.Map.{IsTables, ReadsUpdated}
use closure_os.PageTable.Init.{KernelMap, map_page_database, database_rounds, boot_mm_pgtable_init}
use closure_os.PageTable.Runs.{
  Runs, Runs-ok, Runs-bind, Runs-weaken, Failed, Cleared, Cleared-root, Cleared-IsTables,
  new_page-Runs, map_then,
}
use closure_os.PageTable.Direct.{IsDirect, Kept, Kept-refl, Kept-trans, same-Kept, updated-Kept}
use closure_os.PageTable.Entries.{IsSmall, map_entries-Runs}
use closure_os.PageTable.Sections.{has_unknown, map_sections-IsTables, map_frame_buffer-IsTables}

module _ (info : BootInfo) (map : IsMap info)
    (no_err : addr_is_in_used_range info (err_ptr enomem) ≡ false) (fuel : ℕ) (unknown : Bool)
    (root : ℕ) where
  -- The pages of the database from page descriptor `i` on are mapped, and what was mapped is kept.
  abbrev Based : (i pgdb_page_nr : ℕ) → Boot → Boot → Type 0
  Based i pgdb_page_nr b after =
      IsTables info fuel root after
      × Kept root b after
      × ((p : ℕ) → i ≤ p → p < pgdb_page_nr → lookup 3 root (page_address p) after.word ≢ 0)

  -- One page of the database.
  based_one :
      (i phys : ℕ) (b b' : Boot)
      → i % 64 ≡ 0
      → i < 2 ^ 35
      → phys % 4096 ≡ 0
      → ReadsUpdated root (pgdb_base + sizeof_page * i) (bit_or phys 3) b b'
      → Kept root b b' × ((p : ℕ) → i ≤ p → p < i + 64 → lookup 3 root (page_address p) b'.word ≢ 0)
  based_one i phys b b' al small al_phys reads =
      let present : bit_or phys 3 ≢ 0 =
        λ z. absurd (omega (arith, sym (entry-eq phys al_phys) ∙ z)) in
      (
        updated-Kept root _ _ b b' reads present (λ pa al_pa small_pa e. absurd (omega arith)),
        λ p from below z.
            let same : (page_number (page_address p) == page_number (pgdb_base + sizeof_page * i))
                ≡ true =
              ground arith in
            present (sym (reads (page_address p) ∙ rw same refl) ∙ z),
      )

  pub map_page_database-Runs :
      (rounds i pgdb_page_nr : ℕ) (b : Boot)
      → i % 64 ≡ 0
      → pgdb_page_nr ≤ 2 ^ 35
      → (pgdb_page_nr - i + 63) / 64 < rounds
      → IsTables info fuel root b
      → Runs
          (λ _. Based i pgdb_page_nr b)
          (Failed info unknown)
          (map_page_database fuel info root rounds i pgdb_page_nr b)
  unfolding map_page_database
  map_page_database-Runs zero i nr b al small enough tables = absurd (omega arith)
  map_page_database-Runs (suc rounds) i nr b al small enough (label, tree, ready) =
      elim (Bool-cases (ltb i nr)) [
        | inr done ↦ rw done (
            Runs-ok _ (Failed info unknown) tt b
              ((label, tree, ready), Kept-refl root b, λ p from below. absurd (ground arith)))
        | inl go ↦
            let virt : (pgdb_base + sizeof_page * i) % 2 ^ 64 ≡ pgdb_base + sizeof_page * i =
              ground arith in
            rw (go, virt)
              (Runs-bind {Post = Cleared info map no_err fuel unknown b} _ (Failed info unknown) _ _
                (new_page-Runs info map no_err fuel unknown b ready) (λ e b' failed. failed)
                (λ phys b₁ cleared.
                  let (tables₁, same) =
                    Cleared-IsTables info map no_err fuel unknown root b phys b₁
                      (label, tree, ready) cleared in
                  map_then info map no_err fuel unknown _ root _ phys 3 b₁ _ tables₁
                    (λ b₂ tables₂ reads.
                      let (kept, present) =
                        based_one i phys b₁ b₂ al (ground arith) cleared.0 reads in
                      Runs-weaken _ (Failed info unknown) _
                        (map_page_database-Runs rounds (i + 64) nr b₂ (omega arith) small
                          (ground arith) tables₂)
                        (λ _ b₃ (tables₃, kept₃, later). (
                          tables₃,
                          Kept-trans (same-Kept root b b₁ same) (Kept-trans kept kept₃),
                          λ p from below. elim (Bool-cases (ltb p (i + 64))) [
                            | inl here ↦ kept₃.present _ (present p from (ground arith))
                            | inr there ↦ later p (ground arith) below
                          ],
                        )))))
      ]

-- What `boot_mm_pgtable_init` leaves: tables in order, all whole pages of the memory map below 64 TB
-- in the direct map, a page database whose descriptors are mapped, and in it one for each whole page
-- of an entry that begins at a page.
abbrev pub IsKernelMap : BootInfo → (fuel : ℕ) → KernelMap → Boot → Type 0
IsKernelMap info fuel m after =
    IsTables info fuel m.boot_kern_pgtable after
    × ((j p : ℕ)
        → j < info.mmap_entry_nr
        → p % 4096 ≡ 0
        → (info.entries j).addr ≤ p
        → p + 4096 ≤ (info.entries j).addr + (info.entries j).len
        → ((info.entries j).addr % 4096 ≡ 0 → p / 4096 < m.pgdb_page_nr)
          × (p < 2 ^ 46 → IsDirect m.boot_kern_pgtable p after))
    × ((p : ℕ) → p < m.pgdb_page_nr → lookup 3 m.boot_kern_pgtable (page_address p) after.word ≢ 0)

-- On a memory map in order and below 128 TB, and with fuel for its pages, `boot_mm_pgtable_init` ends:
-- it neither halts nor runs out of fuel. It fails with `ENOMEM` only when no available entry has a page
-- left, and with `EFAULT` only where a section to be loaded is of no known type. Otherwise the table
-- that it loads maps each whole page of the memory map below 64 TB at its address of the direct map, for
-- reading and writing; it maps each descriptor of the page database; and the database has a descriptor
-- for each whole page of an entry that begins at a page.
pub boot_mm_pgtable_init_lem :
    (info : BootInfo) (fuel : ℕ) (b : Boot)
    → IsMap info
    → IsSmall info
    → addr_is_in_used_range info (err_ptr enomem) ≡ false
    → IsReady info fuel b
    → Runs
        (IsKernelMap info fuel)
        (Failed info (has_unknown info.sections))
        (boot_mm_pgtable_init fuel info b)
unfolding boot_mm_pgtable_init
boot_mm_pgtable_init_lem info fuel b map small no_err ready =
    let unknown = has_unknown info.sections in
    let Fail = Failed info unknown in
    Runs-bind {Post = Cleared info map no_err fuel unknown b} _ Fail _ _
      (new_page-Runs info map no_err fuel unknown b ready) (λ e b' failed. failed)
      (λ root b₁ cleared.
        Runs-bind _ Fail _ _
          (map_sections-IsTables info map no_err fuel root info.sections b₁
            (Cleared-root info map no_err fuel unknown b root b₁ cleared))
          (λ e b' failed. failed)
          (λ _ b₂ tables₂.
            Runs-bind _ Fail _ _
              (map_frame_buffer-IsTables info map no_err fuel root unknown info.frame_buffer b₂
                tables₂)
              (λ e b' failed. failed)
              (λ _ b₃ tables₃.
                Runs-bind _ Fail _ _
                  (map_entries-Runs info map no_err fuel unknown root small info.mmap_entry_nr 0 0
                    b₃ (omega arith) (omega arith) tables₃)
                  (λ e b' failed. failed)
                  (λ physmem_end b₄ (tables₄, kept₄, above, low, covered).
                    Runs-bind _ Fail _ _
                      (map_page_database-Runs info map no_err fuel unknown root
                        (database_rounds (physmem_end / 4096)) 0 (physmem_end / 4096) b₄ refl
                        (omega arith) (omega arith) tables₄)
                      (λ e b' failed. failed)
                      (λ _ b₅ (tables₅, kept₅, based). Runs-ok (IsKernelMap info fuel) Fail _ b₅ (
                        tables₅,
                        (λ j p below al first last.
                            let (in_database, direct) =
                              covered j (omega arith) (omega arith) p al first last in
                            (
                              (λ aligned. omega (arith, in_database aligned)),
                              λ in_region. kept₅.direct p al in_region (direct in_region),
                            )),
                        λ p below. based p (omega arith) below,
                      ))))))
