-- ===== src/PageTable/Length.antt =====
-- The length that `boot_mm_pgtable_init` of src/arch/x86/boot/boot_mm.cpp gives the page database.
use closure_os.Base.{
  ℕ, zero, suc, ◌+◌, ◌/◌, ◌%◌, ◌^◌, ◌≤◌, ◌<◌, ◌≡◌, refl, ap, subst, ◌∙◌, bit_and, ◌==◌, ltb,
  if◌then◌else◌, Bool-cases, inl, inr, arith,
}
use closure_os.Layout.{page_size, page_mask, kern_direct_map_region_base}
use closure_os.Layout.Align.{page_mask_lem}
use closure_os.BootMem.{BootInfo}
use closure_os.BootMem.Linear.{IsMap}
use closure_os.BootMem.Pages.{IsAligned, IsIn}
use closure_os.PageTable.{Boot, Outcome, ok, err, halted, unfinished, Run, and_then}
use closure_os.PageTable.Init.{
  new_page, map_sections, map_frame_buffer, map_entries, map_page_database, database_rounds,
  boot_mm_pgtable_init,
}

-- `physmem_end` behind the loop over the entries from `i` on: the largest end of an entry.
unfoldable pub physmem_end : (rounds i : ℕ) → BootInfo → (so_far : ℕ) → ℕ
physmem_end zero i info so_far = so_far
physmem_end (suc rounds) i info so_far =
    let entry = info.entries i in
    let end_addr = (bit_and entry.addr page_mask + entry.len) % 2 ^ 64 in
    physmem_end rounds (i + 1) info (if ltb so_far end_addr then end_addr else so_far)

-- `pgdb_page_nr` for a memory map.
unfoldable pub database_length : BootInfo → ℕ
unfolding physmem_end
database_length info = physmem_end info.mmap_entry_nr 0 info 0 / page_size

-- Where the run ends well, its value has `Post`.
unfoldable pub Gives : {A : Type 0} → (Post : A → Type 0) → Outcome A → Type 0
Gives Post (ok a b) = Post a
Gives Post (err errno b) = Unit
Gives Post halted = Unit
Gives Post unfinished = Unit

Gives-bind :
    {A B : Type 0} (Pre : A → Type 0) (Post : B → Type 0) (m : Outcome A) (f : A → Run B)
    → Gives Pre m
    → ((a : A) (b : Boot) → Pre a → Gives Post (f a b))
    → Gives Post (and_then m f)
unfolding Gives
Gives-bind Pre Post (ok a b) f pre go = go a b pre
Gives-bind Pre Post (err errno b) f pre go = tt
Gives-bind Pre Post halted f pre go = tt
Gives-bind Pre Post unfinished f pre go = tt

Gives-any : {A : Type 0} (m : Outcome A) → Gives (λ _. Unit {0}) m
unfolding Gives
Gives-any (ok a b) = tt
Gives-any (err errno b) = tt
Gives-any halted = tt
Gives-any unfinished = tt

Gives-ok : {A : Type 0} (Post : A → Type 0) (a : A) (b : Boot) → Post a → Gives Post (ok a b)
unfolding Gives
Gives-ok Post a b post = post

Gives-halted : {A : Type 0} (Post : A → Type 0) → Gives Post halted
unfolding Gives
Gives-halted Post = tt

map_entries-end :
    (fuel : ℕ) (info : BootInfo) (root rounds i so_far : ℕ) (b : Boot)
    → Gives
        (λ r. r ≡ physmem_end rounds i info so_far)
        (map_entries fuel info root rounds i so_far b)
unfolding map_entries physmem_end
map_entries-end fuel info root zero i so_far b = Gives-ok _ so_far b refl
map_entries-end fuel info root (suc rounds) i so_far b =
    let base = bit_and (info.entries i).addr page_mask in
    let vaddr = (base + kern_direct_map_region_base) % 2 ^ 64 in
    elim (Bool-cases (ltb vaddr base)) [
      | inl wrapped ↦ rw wrapped (Gives-halted _)
      | inr apart ↦ rw apart (
          Gives-bind (λ _. Unit {0}) _ _ _ (Gives-any _)
            (λ _ b₁ _. map_entries-end fuel info root rounds (i + 1) _ b₁))
    ]

-- Where `boot_mm_pgtable_init` succeeds, it sets `pgdb_page_nr` to the pages below the largest end of an
-- entry.
pub boot_mm_pgtable_init-length :
    (fuel : ℕ) (info : BootInfo) (b : Boot)
    → Gives (λ m. m.pgdb_page_nr ≡ database_length info) (boot_mm_pgtable_init fuel info b)
unfolding boot_mm_pgtable_init database_length
boot_mm_pgtable_init-length fuel info b =
    Gives-bind (λ _. Unit {0}) _ _ _ (Gives-any (new_page fuel info b))
      (λ root b₁ _.
        Gives-bind (λ _. Unit {0}) _ _ _ (Gives-any (map_sections fuel info root info.sections b₁))
          (λ _ b₂ _.
            Gives-bind (λ _. Unit {0}) _ _ _
              (Gives-any (map_frame_buffer fuel info root info.frame_buffer b₂))
              (λ _ b₃ _.
                Gives-bind (λ r. r ≡ physmem_end info.mmap_entry_nr 0 info 0) _ _ _
                  (map_entries-end fuel info root info.mmap_entry_nr 0 0 b₃)
                  (λ r b₄ e.
                    Gives-bind (λ _. Unit {0}) _ _ _
                      (Gives-any (
                        map_page_database fuel info root (database_rounds (r / page_size)) 0
                          (r / page_size) b₄))
                      (λ _ b₅ _. Gives-ok _ _ b₅ (ap (λ (l : ℕ). l / page_size) e))))))

-- Each entry ends at a page.
abbrev pub IsWhole : BootInfo → Type 0
IsWhole info = (i : ℕ) → i < info.mmap_entry_nr → (info.entries i).len % 4096 ≡ 0

-- No entry that begins at a page reaches beyond `physmem_end`.
physmem_end-bound :
    (info : BootInfo) (map : IsMap info) (aligned : IsAligned info) (rounds i so_far : ℕ)
    → i + rounds ≤ info.mmap_entry_nr
    → (so_far ≤ physmem_end rounds i info so_far)
      × ((j : ℕ)
          → i ≤ j
          → j < i + rounds
          → (info.entries j).addr + (info.entries j).len ≤ physmem_end rounds i info so_far)
unfolding physmem_end
physmem_end-bound info map aligned zero i so_far inside =
    (omega arith, λ j from below. absurd (omega arith))
physmem_end-bound info map aligned (suc rounds) i so_far inside =
    let entry = info.entries i in
    let low : entry.addr + entry.len < 2 ^ 52 = map.0 i (omega arith) in
    let at_page = aligned i (omega arith) in
    let base_eq : bit_and entry.addr page_mask ≡ entry.addr =
      page_mask_lem entry.addr (omega arith) ∙ omega arith in
    let end_eq : (entry.addr + entry.len) % 2 ^ 64 ≡ entry.addr + entry.len = omega arith in
    let next = (if ltb so_far (entry.addr + entry.len) then entry.addr + entry.len else so_far) in
    let up : so_far ≤ next = ground arith in
    let over : entry.addr + entry.len ≤ next = ground arith in
    let rest = physmem_end-bound info map aligned rounds (i + 1) next (omega arith) in
    rw (base_eq, end_eq)
      (
        omega (arith, up, rest.0),
        λ j from below. elim (Bool-cases (j == i)) [
          | inl same ↦
              let at_i : i ≡ j = ground arith in
              subst
                (λ (k : ℕ).
                  (info.entries k).addr + (info.entries k).len
                  ≤ physmem_end rounds (i + 1) info next)
                at_i (omega (arith, over, rest.0))
          | inr other ↦ rest.1 j (ground arith) (omega arith)
        ],
      )

-- On a map in order whose entries begin and end at pages, each page of an entry has a descriptor.
pub database_length-bound :
    (info : BootInfo) (j q : ℕ)
    → IsMap info
    → IsAligned info
    → IsWhole info
    → j < info.mmap_entry_nr
    → IsIn info j q
    → q < database_length info
unfolding database_length
database_length-bound info j q map aligned whole inside there =
    let bound =
      (physmem_end-bound info map aligned info.mmap_entry_nr 0 0 (omega arith)).1 j (omega arith)
        (omega arith) in
    let start = aligned j inside in
    let len = whole j inside in omega (arith, bound, start, len, there.0, there.1)
