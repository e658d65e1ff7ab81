-- ===== src/BootMem/Linear.antt =====
-- The boot allocator goes upwards through the free regions of the memory map.
use closure_os.Base.{
  ℕ, zero, suc, ◌+◌, ◌-◌, ◌*◌, ◌/◌, ◌%◌, ◌^◌, ◌≤◌, ◌<◌, ◌≡◌, refl, sym, ap, subst, ◌∙◌, bit_and,
  true, false, ◌||◌, Option, none, some, Option-cases, ltb, ◌==◌, if◌then◌else◌, Bool-cases, ◌⊎◌,
  inl, inr, arith,
}
use mathlib.Core.Option.{none-ne-some, some-injective}
use closure_os.Layout.{page_size, page_mask, page_align}
use closure_os.Layout.Align.{page_mask_lem, page_align_lem}
use closure_os.BootMem.{
  Cursor, BootInfo, multiboot_memory_available, enomem, err_ptr, next_region, find_region,
  take_page, boot_mm_page_alloc_internal,
}

-- The memory map has its entries in order and apart, below 2 ^ 52, the largest physical address.
abbrev pub IsMap : BootInfo → Type 0
IsMap info =
    ((i : ℕ) → i < info.mmap_entry_nr → (info.entries i).addr + (info.entries i).len < 2 ^ 52)
    × ((i j : ℕ)
        → i < j
        → j < info.mmap_entry_nr
        → (info.entries i).addr + (info.entries i).len ≤ (info.entries j).addr)

-- The region of `c` is whole pages of the available entry `j`, with one left at least, and the
-- entries from `c.next_entry_idx` on are above it.
abbrev InRegion : BootInfo → Cursor → ℕ → Type 0
InRegion info c j =
    ((info.entries j).type ≡ multiboot_memory_available)
    × (j < info.mmap_entry_nr)
    × (c.curr_avail % 4096 ≡ 0)
    × (c.curr_end % 4096 ≡ 0)
    × ((info.entries j).addr ≤ c.curr_avail)
    × (c.curr_avail < c.curr_end)
    × (c.curr_end ≤ (info.entries j).addr + (info.entries j).len)

-- The entries from `c.next_entry_idx` on are above what is left of the region of `c`.
abbrev AllAbove : BootInfo → Cursor → (curr_entry : Option ℕ) → Type 0
AllAbove info c o =
    (j : ℕ)
    → c.next_entry_idx ≤ j
    → j < info.mmap_entry_nr
    → elim o [ none ↦ c.curr_avail | some _ ↦ c.curr_end ] ≤ (info.entries j).addr

abbrev pub IsCursor : BootInfo → Cursor → Type 0
IsCursor info c =
    ((j : ℕ) → c.curr_entry ≡ some j → InRegion info c j)
    × AllAbove info c c.curr_entry
    × (c.next_entry_idx ≤ info.mmap_entry_nr)

-- No available entry from `i` on holds a whole page.
abbrev pub IsExhausted : BootInfo → (i : ℕ) → Type 0
IsExhausted info i =
    (j a : ℕ)
    → i ≤ j
    → j < info.mmap_entry_nr
    → (info.entries j).type ≡ multiboot_memory_available
    → a % 4096 ≡ 0
    → (info.entries j).addr ≤ a
    → (info.entries j).addr + (info.entries j).len < a + 4096

-- What the search for a region from entry `i` on makes of `c`: nothing, or a region above
-- `c.curr_avail`.
abbrev Found : BootInfo → (i : ℕ) → Cursor → Cursor → Type 0
Found info i c c₁ =
    ((c₁ ≡ c) × IsExhausted info i)
    ⊎ ((j : ℕ) × (c₁.curr_entry ≡ some j)
        × InRegion info c₁ j
        × (c.curr_avail ≤ c₁.curr_avail)
        × (c₁.next_entry_idx ≡ suc j))

-- Entry `i` holds no whole page.
abbrev IsSmall : BootInfo → (i : ℕ) → Type 0
IsSmall info i =
    (info.entries i).type ≡ multiboot_memory_available
    → (a : ℕ) → a % 4096 ≡ 0
    → (info.entries i).addr ≤ a
    → (info.entries i).addr + (info.entries i).len < a + 4096

skip_entry :
    (info : BootInfo) (i : ℕ) (c c₁ : Cursor)
    → IsSmall info i
    → Found info (i + 1) c c₁
    → Found info i c c₁
skip_entry info i c c₁ small (inr found) = inr found
skip_entry info i c c₁ small (inl (same, rest)) = inl (
  same,
  λ j a from to available al above. elim (Bool-cases (i == j)) [
    | inl here ↦ subst (IsSmall info) (ground arith) small available a al above
    | inr later ↦ rest j a (ground arith) to available al above
  ],
)

no_room :
    (b e a : ℕ)
    → (ltb (e / 4096 * 4096) ((b + 4095) / 4096 * 4096)
        || ltb (e / 4096 * 4096 - (b + 4095) / 4096 * 4096) page_size)
      ≡ true
    → a % 4096 ≡ 0
    → b ≤ a
    → e < a + 4096
no_room b e a h al above = ground arith

room : (b e : ℕ) → (ltb e b || ltb (e - b) page_size) ≡ false → b + 4096 ≤ e
room b e h = ground arith

next_region_lem :
    (info : BootInfo)
    → IsMap info
    → (rounds i : ℕ) (c : Cursor) → i + rounds ≡ info.mmap_entry_nr
    → ((j : ℕ) → i ≤ j → j < info.mmap_entry_nr → c.curr_avail ≤ (info.entries j).addr)
    → (c₁ : Cursor) × (next_region rounds i info c ≡ some c₁) × Found info i c c₁
unfolding next_region
next_region_lem info map zero i c e above =
    (c, refl, inl (refl, (λ j a from to available al above. absurd (omega arith))))
next_region_lem info map (suc rounds) i c e above =
    let entry = info.entries i in
    let low = map.0 i (omega arith) in
    let (c₁, run, search) =
      next_region_lem info map rounds (i + 1) c (omega arith)
        (λ j hj hn. above j (omega arith) hn) in
    let end_eq : (entry.addr + entry.len) % 2 ^ 64 ≡ entry.addr + entry.len = omega arith in
    let base_eq = page_align_lem entry.addr (omega arith) in
    let end_page_eq = page_mask_lem (entry.addr + entry.len) (omega arith) in
    let no_wrap : ltb (entry.addr + entry.len) entry.addr ≡ false = ground arith in
    elim (Bool-cases (entry.type == multiboot_memory_available)) [
      | inr other ↦
          (c₁, rw other run, skip_entry info i c c₁ (λ available. absurd (ground arith)) search)
      | inl available ↦
          elim (Bool-cases (
            ltb (bit_and (entry.addr + entry.len) page_mask) (page_align entry.addr)
            || ltb (bit_and (entry.addr + entry.len) page_mask - page_align entry.addr)
                page_size)) [
                  | inl small ↦ (
                    c₁,
                    rw (available, end_eq, no_wrap, small) run,
                    skip_entry info i c c₁
                        (λ av a al up.
                          no_room entry.addr (entry.addr + entry.len) a
                            (subst
                              (λ (b : ℕ).
                                (ltb ((entry.addr + entry.len) / 4096 * 4096) b
                                  || ltb ((entry.addr + entry.len) / 4096 * 4096 - b) page_size)
                                ≡ true)
                              base_eq
                              (subst
                                (λ (d : ℕ).
                                  (ltb d (page_align entry.addr)
                                    || ltb (d - page_align entry.addr) page_size)
                                  ≡ true)
                                end_page_eq small))
                            al up)
                        search,
                  )
                  | inr enough ↦
                      let fits : page_align entry.addr + 4096
                          ≤ bit_and (entry.addr + entry.len) page_mask =
                        room _ _ enough in
                      let first = above i (omega arith) (omega arith) in
                      (
                        record {
                          curr_entry = some i;
                          next_entry_idx = i + 1;
                          curr_avail = page_align entry.addr;
                          curr_end = bit_and (entry.addr + entry.len) page_mask;
                        },
                        rw (available, end_eq, no_wrap, enough) refl,
                        inr (
                          i,
                          refl,
                          (
                            ground arith,
                            omega arith,
                            omega arith,
                            omega arith,
                            omega arith,
                            omega arith,
                            omega arith,
                          ),
                          omega arith,
                          omega arith,
                        ),
                      )
                ]
    ]

-- The page that `boot_mm_page_alloc_internal` hands out: at `res`, from an available entry `j`.
abbrev pub NewPage : BootInfo → (c : Cursor) → (res : ℕ) → Cursor → Type 0
NewPage info c res c₁ =
    (res % 4096 ≡ 0)
    × (c.curr_avail ≤ res)
    × (c₁.curr_avail ≡ res + 4096)
    × ((j : ℕ) × ((info.entries j).type ≡ multiboot_memory_available)
        × (j < info.mmap_entry_nr)
        × ((info.entries j).addr ≤ res)
        × (res + 4096 ≤ (info.entries j).addr + (info.entries j).len))

-- The end of `boot_mm_page_alloc_internal`, where there is a region.
abbrev taken : (j : ℕ) → Cursor → Cursor
taken j c =
    let avail = (c.curr_avail + page_size) % 2 ^ 64 in
    record c { curr_avail = avail; curr_entry = if avail == c.curr_end then none else some j }

exhausted-IsCursor :
    (info : BootInfo) (c : Cursor)
    → c.curr_entry ≡ none
    → AllAbove info c none
    → c.next_entry_idx ≤ info.mmap_entry_nr
    → IsCursor info c
exhausted-IsCursor info c e above idx =
    (λ j at. elim (none-ne-some _ (sym e ∙ at)) [ ], subst (AllAbove info c) (sym e) above, idx)

region-IsCursor :
    (info : BootInfo) (c : Cursor) (j : ℕ)
    → c.curr_entry ≡ some j
    → InRegion info c j
    → AllAbove info c (some 0)
    → c.next_entry_idx ≤ info.mmap_entry_nr
    → IsCursor info c
region-IsCursor info c j e region above idx = (
  λ i at. subst (InRegion info c) (some-injective _ _ (sym e ∙ at)) region,
  subst (AllAbove info c) (sym e) above,
  idx,
)

taken-IsCursor :
    (info : BootInfo)
    → IsMap info
    → (j : ℕ) (c : Cursor) → InRegion info c j
    → AllAbove info c (some 0)
    → c.next_entry_idx ≤ info.mmap_entry_nr
    → IsCursor info (taken j c) × NewPage info c c.curr_avail (taken j c)
taken-IsCursor info map j c (available, there, al, al_end, from, some_left, to) above idx =
    let low = map.0 j there in
    let next : (c.curr_avail + page_size) % 2 ^ 64 ≡ c.curr_avail + 4096 = omega arith in
    let page : NewPage info c c.curr_avail (taken j c) =
      (al, omega arith, next, (j, available, there, from, omega arith)) in
    elim (Bool-cases (c.curr_avail + 4096 == c.curr_end)) [
      | inl last ↦ (
        exhausted-IsCursor info (taken j c) (rw (next, last) refl)
            (λ i hi hn.
              let up = above i hi hn in
              let end_there : c.curr_avail + 4096 ≡ c.curr_end = ground arith in omega arith)
            idx,
        page,
      )
      | inr more ↦ (
        region-IsCursor info (taken j c) j (rw (next, more) refl)
            (available, there, omega arith, al_end, omega arith, ground arith, to) above idx,
        page,
      )
    ]

-- The allocator at the region that the search finds.
alloc_found :
    (info : BootInfo) (c c₁ : Cursor) (e₁ : Option ℕ)
    → find_region c.curr_entry info c ≡ some c₁
    → c₁.curr_entry ≡ e₁
    → boot_mm_page_alloc_internal info c ≡ some (take_page e₁ c₁)
unfolding boot_mm_page_alloc_internal
alloc_found info c c₁ e₁ found at =
    ap (λ (o : Option Cursor). elim o [ none ↦ none | some d ↦ some (take_page d.curr_entry d) ])
      found
    ∙ ap (λ (o : Option ℕ). some (take_page o c₁)) at

-- The answer where the search found `c₁`.
alloc_searched :
    (info : BootInfo) (c c₁ : Cursor)
    → IsMap info
    → c.curr_entry ≡ none
    → c.next_entry_idx ≤ info.mmap_entry_nr
    → find_region c.curr_entry info c ≡ some c₁
    → Found info c.next_entry_idx c c₁
    → ((boot_mm_page_alloc_internal info c ≡ some (err_ptr enomem, c))
        × (c.curr_entry ≡ none)
        × IsExhausted info c.next_entry_idx)
      ⊎ ((res : ℕ) × (c₁ : Cursor) × (boot_mm_page_alloc_internal info c ≡ some (res, c₁))
          × IsCursor info c₁
          × NewPage info c res c₁)
unfolding take_page
alloc_searched info c c₁ map e idx found (inl (same, rest)) =
    inl (alloc_found info c c none (found ∙ ap some same) e, e, rest)
alloc_searched info c c₁ map e idx found (inr (j, at, region, up, next_idx)) =
    let there = region.1 in
    let above : AllAbove info c₁ (some j) =
      λ i hi hn. let apart = map.1 j i (omega arith) hn in let inside = region.6 in omega arith in
    let (good, page) = taken-IsCursor info map j c₁ region above (omega arith) in
    inr (
      c₁.curr_avail,
      taken j c₁,
      alloc_found info c c₁ (some j) found at,
      good,
      (page.0, up, page.2, page.3),
    )

-- On a memory map in order and below 2 ^ 52, `boot_mm_page_alloc_internal` does not halt. It hands out
-- a whole page of an available entry, at or above every page it handed out before, with the cursor
-- behind it; or it answers `-ENOMEM` and leaves the cursor as it was, and then it has no region and no
-- available entry that is left holds a whole page.
pub boot_mm_page_alloc_internal_lem :
    (info : BootInfo) (c : Cursor)
    → IsMap info
    → IsCursor info c
    → ((boot_mm_page_alloc_internal info c ≡ some (err_ptr enomem, c))
        × (c.curr_entry ≡ none)
        × IsExhausted info c.next_entry_idx)
      ⊎ ((res : ℕ) × (c₁ : Cursor) × (boot_mm_page_alloc_internal info c ≡ some (res, c₁))
          × IsCursor info c₁
          × NewPage info c res c₁)
unfolding take_page find_region
boot_mm_page_alloc_internal_lem info c map (region, above, idx) = elim (Option-cases c.curr_entry) [
  | inr (j, e) ↦
      let (good, page) =
        taken-IsCursor info map j c (region j e) (subst (AllAbove info c) e above) idx in
      let found : find_region c.curr_entry info c ≡ some c =
        ap (λ (o : Option ℕ). find_region o info c) e in
      inr (c.curr_avail, taken j c, alloc_found info c c (some j) found e, good, page)
  | inl e ↦
      let (c₁, run, search) =
        next_region_lem info map (info.mmap_entry_nr - c.next_entry_idx) c.next_entry_idx c
          (omega arith) (subst (AllAbove info c) e above) in
      let found : find_region c.curr_entry info c ≡ some c₁ =
        ap (λ (o : Option ℕ). find_region o info c) e ∙ run in
      alloc_searched info c c₁ map e idx found search
]
