-- ===== src/BootMem/Pages.antt =====
-- `boot_mm_page_database_init` of src/arch/x86/boot/boot_mm.cpp over the whole memory map.
use closure_os.Base.{
  ℕ, zero, suc, ◌+◌, ◌*◌, ◌/◌, ◌%◌, ◌^◌, ◌≤◌, ◌<◌, ◌≡◌, refl, sym, ap, subst, ◌∙◌, true, ◌&&◌,
  Option, none, some, ◌==◌, ltb, leb, Bool-cases, inl, inr, arith,
}
use closure_os.Kernel.{Page, Kernel}
use closure_os.BootMem.{BootInfo}
use closure_os.BootMem.Linear.{IsMap}
use closure_os.BootMem.Database.{
  init_page, is_used, init_entry, database_from, boot_mm_page_database_init, init_entry_lem,
}

-- The entries begin at pages.
abbrev pub IsAligned : BootInfo → Type 0
IsAligned info = (i : ℕ) → i < info.mmap_entry_nr → (info.entries i).addr % 4096 ≡ 0

-- Page `q` begins in entry `j`.
abbrev pub IsIn : BootInfo → (j q : ℕ) → Type 0
IsIn info j q =
    ((info.entries j).addr ≤ q * 4096) × (q * 4096 < (info.entries j).addr + (info.entries j).len)

-- What the loop over the entries from `i` on makes of the pages.
abbrev pub Based : BootInfo → (curr_avail i rounds : ℕ) → (page after : ℕ → Page) → Type 0
Based info curr_avail i rounds page after =
    ((j q : ℕ)
      → i ≤ j
      → j < i + rounds
      → IsIn info j q
      → after q ≡ init_page (info.entries j).type (is_used info curr_avail (q * 4096)) (page q))
    × ((q : ℕ) → ((j : ℕ) → i ≤ j → j < i + rounds → ¬ IsIn info j q) → after q ≡ page q)

module _ (fuel : ℕ) (info : BootInfo) (curr_avail : ℕ) (map : IsMap info) (aligned : IsAligned info)
    (enough : 2 ^ 40 ≤ fuel) where
  -- The pages behind the loop over entry `i`.
  entry_pages :
      (i : ℕ) (s : Kernel)
      → i < info.mmap_entry_nr
      → (after : Kernel) × (init_entry
            (suc fuel)
            info
            curr_avail
            (info.entries i).type
            (info.entries i).addr
            (((info.entries i).addr + (info.entries i).len) % 2 ^ 64)
            s
          ≡ some after)
        × ((q : ℕ)
            → IsIn info i q
            → after.page q
              ≡ init_page (info.entries i).type (is_used info curr_avail (q * 4096)) (s.page q))
        × ((q : ℕ) → ¬ IsIn info i q → after.page q ≡ s.page q)
  entry_pages i s inside =
      let entry = info.entries i in
      let b = entry.addr / 4096 in
      let end_addr = entry.addr + entry.len in
      let low : end_addr < 2 ^ 52 = map.0 i inside in
      let start : entry.addr ≡ b * 4096 = omega (arith, aligned i inside) in
      let end_eq : end_addr % 2 ^ 64 ≡ end_addr = omega arith in
      let (after, run, pages) =
        init_entry_lem fuel info curr_avail entry.type b end_addr s (omega arith) low
          (omega arith) in
      (
        after,
        ap (λ (e : ℕ). init_entry (suc fuel) info curr_avail entry.type entry.addr e s) end_eq
            ∙ ap (λ (a : ℕ). init_entry (suc fuel) info curr_avail entry.type a end_addr s) start
            ∙ run,
        (λ q there.
            let test : (leb (b * 4096) (q * 4096) && ltb (q * 4096) end_addr) ≡ true =
              ground arith in
            pages q ∙ rw test refl),
        (λ q outside. elim (Bool-cases (leb (b * 4096) (q * 4096) && ltb (q * 4096) end_addr)) [
          | inl within ↦ absurd (outside (ground arith))
          | inr test ↦ pages q ∙ rw test refl
        ]),
      )

  -- No page begins in two entries.
  one_entry : (i j q : ℕ) → i < j → j < info.mmap_entry_nr → IsIn info i q → IsIn info j q → ⊥
  one_entry i j q before inside there there' = omega (arith, map.1 i j before inside)

  database_from_lem :
      (rounds i : ℕ) (s : Kernel)
      → i + rounds ≤ info.mmap_entry_nr
      → (after : Kernel) × (database_from rounds i (suc fuel) info curr_avail s ≡ some after)
        × Based info curr_avail i rounds s.page after.page
  unfolding database_from
  database_from_lem zero i s inside =
      (s, refl, ((λ j q from below there. absurd (omega arith)), λ q apart. refl))
  database_from_lem (suc rounds) i s inside =
      let (s₁, run₁, set₁, kept₁) = entry_pages i s (omega arith) in
      let on_entry : Option Kernel → Option Kernel = λ o. elim o [
        | none ↦ none
        | some s' ↦ database_from rounds (i + 1) (suc fuel) info curr_avail s'
      ] in
      let (after, run, based) = database_from_lem rounds (i + 1) s₁ (omega arith) in
      (
        after,
        ap on_entry run₁ ∙ run,
        (
          (λ j q from below there. elim (Bool-cases (j == i)) [
            | inl same ↦
                let e : j ≡ i = ground arith in
                let there' : IsIn info i q = subst (λ (k : ℕ). IsIn info k q) e there in
                based.1 q (λ j' from' below' there''.
                  one_entry i j' q (omega arith) (omega arith) there' there'')
                ∙ set₁ q there'
                ∙ ap
                    (λ (k : ℕ).
                      init_page (info.entries k).type (is_used info curr_avail (q * 4096))
                        (s.page q))
                    (sym e)
            | inr other ↦
                let later : i + 1 ≤ j = ground arith in
                based.0 j q later (omega arith) there
                ∙ ap (init_page (info.entries j).type (is_used info curr_avail (q * 4096)))
                    (kept₁ q (λ there'. one_entry i j q (omega arith) (omega arith) there' there))
          ]),
          λ q apart.
              based.1 q (λ j from below. apart j (omega arith) (omega arith))
              ∙ kept₁ q (apart i (omega arith) (omega arith)),
        ),
      )

-- On a memory map in order whose entries begin at pages, and with fuel for the pages below 2 ^ 52,
-- `boot_mm_page_database_init` returns. Each page that begins in an entry has the type of the entry, no
-- pool and no cache, and the count -1 exactly if it is available, at or above the allocator's cursor and
-- in no used range; all other pages, the holes of the map, are as before.
pub boot_mm_page_database_init_lem :
    (fuel : ℕ) (info : BootInfo) (curr_avail : ℕ) (s : Kernel)
    → IsMap info
    → IsAligned info
    → 2 ^ 40 ≤ fuel
    → (after : Kernel) × (boot_mm_page_database_init (suc fuel) info curr_avail s ≡ some after)
      × Based info curr_avail 0 info.mmap_entry_nr s.page after.page
unfolding boot_mm_page_database_init
boot_mm_page_database_init_lem fuel info curr_avail s map aligned enough =
    database_from_lem fuel info curr_avail map aligned enough info.mmap_entry_nr 0 s (omega arith)
