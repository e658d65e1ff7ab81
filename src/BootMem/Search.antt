-- ===== src/BootMem/Search.antt =====
-- The loop of `boot_mm_page_alloc` ends, with a page that nothing uses.
use closure_os.Base.{
  ℕ, zero, suc, ◌+◌, ◌-◌, ◌/◌, ◌%◌, ◌^◌, ◌≤◌, ◌<◌, ◌≡◌, refl, ap, ◌∙◌, Bool, false, Option, none,
  some, if◌then◌else◌, Bool-cases, ◌⊎◌, inl, inr, arith,
}
use closure_os.BootMem.{
  Cursor, BootInfo, Result, page, halt, enomem, err_ptr, addr_is_in_used_range,
  boot_mm_page_alloc_internal, boot_mm_page_alloc, multiboot_memory_available,
}
use closure_os.BootMem.Linear.{IsMap, IsCursor, IsExhausted, boot_mm_page_alloc_internal_lem}

-- A whole unused page of an available entry, at or above `floor`, which the cursor `c₁` is past.
abbrev pub Unused : BootInfo → (floor res : ℕ) → Cursor → Type 0
Unused info floor res c₁ =
    (addr_is_in_used_range info res ≡ false)
    × (res % 4096 ≡ 0)
    × (floor ≤ res)
    × (c₁.curr_avail ≡ res + 4096)
    × ((j : ℕ) × ((info.entries j).type ≡ multiboot_memory_available)
        × (j < info.mmap_entry_nr)
        × ((info.entries j).addr ≤ res)
        × (res + 4096 ≤ (info.entries j).addr + (info.entries j).len))

-- How the loop answers: `-ENOMEM`, where no entry that is left holds a page, or a page.
abbrev pub Answer : BootInfo → (floor res : ℕ) → Cursor → Type 0
Answer info floor res c₁ =
    ((res ≡ err_ptr enomem) × IsExhausted info c₁.next_entry_idx × (floor ≤ c₁.curr_avail))
    ⊎ Unused info floor res c₁

-- A step of the loop, from the answer of `boot_mm_page_alloc_internal`.
step :
    (info : BootInfo) (c c₁ : Cursor) (fuel res : ℕ)
    → boot_mm_page_alloc_internal info c ≡ some (res, c₁)
    → boot_mm_page_alloc (suc fuel) info c
      ≡ (if addr_is_in_used_range info res then boot_mm_page_alloc fuel info c₁ else page res c₁)
unfolding boot_mm_page_alloc
step info c c₁ fuel res run =
    ap
      (λ (o : Option (ℕ × Cursor)). elim o [
        | none ↦ halt
        | some (r, d) ↦
            let again = boot_mm_page_alloc fuel info d in
            if addr_is_in_used_range info r then again else page r d
      ])
      run

pick : {b c : Bool} (u v : Result) → b ≡ c → (if b then u else v) ≡ (if c then u else v)
pick u v e = ap (λ (x : Bool). if x then u else v) e

-- A floor that is lowered.
lower :
    (info : BootInfo) (floor floor' res : ℕ) (c₁ : Cursor)
    → floor ≤ floor'
    → Answer info floor' res c₁
    → Answer info floor res c₁
lower info floor floor' res c₁ le (inl (e, rest, up)) = inl (e, rest, omega arith)
lower info floor floor' res c₁ le (inr (free, al, up, next, there)) =
    inr (free, al, omega arith, next, there)

-- On a memory map in order and below 2 ^ 52, with the error pointer outside the used ranges, and with
-- fuel for the pages between the cursor and the end of physical memory, `boot_mm_page_alloc` returns.
-- Either it returns the error pointer `-ENOMEM`, and no available entry that is left holds a whole
-- page; or it returns a whole page of an available entry that is in no used range and is at or above
-- every page handed out before. In both cases the cursor does not go back.
pub boot_mm_page_alloc_lem :
    (fuel : ℕ) (info : BootInfo) (c : Cursor)
    → IsMap info
    → IsCursor info c
    → addr_is_in_used_range info (err_ptr enomem) ≡ false
    → (2 ^ 52 - c.curr_avail) / 4096 < fuel
    → (res : ℕ) × (c₁ : Cursor) × (boot_mm_page_alloc fuel info c ≡ page res c₁)
      × IsCursor info c₁
      × Answer info c.curr_avail res c₁
boot_mm_page_alloc_lem zero info c map good no_err h = absurd (omega arith)
boot_mm_page_alloc_lem (suc fuel) info c map good no_err h =
    elim (boot_mm_page_alloc_internal_lem info c map good) [
      | inl (run, at_end, rest) ↦ (
        err_ptr enomem,
        c,
        step info c c fuel (err_ptr enomem) run ∙ pick _ _ no_err,
        good,
        inl (refl, rest, omega arith),
      )
      | inr (res, c₁, run, good₁, p) ↦ elim (Bool-cases (addr_is_in_used_range info res)) [
        | inr free ↦ (
          res,
          c₁,
          step info c c₁ fuel res run ∙ pick _ _ free,
          good₁,
          inr (free, p.0, p.1, p.2, p.3),
        )
        | inl used ↦
            let there = map.0 (p.3).0 (p.3).2 in
            let inside : res + 4096 < 2 ^ 52 = omega (arith, (p.3).4) in
            let up : c.curr_avail ≤ res = p.1 in
            let next : c₁.curr_avail ≡ res + 4096 = p.2 in
            let (res', c₂, run', good₂, answer) =
              boot_mm_page_alloc_lem fuel info c₁ map good₁ no_err (ground arith) in
            (
              res',
              c₂,
              step info c c₁ fuel res run ∙ pick _ _ used ∙ run',
              good₂,
              lower info c.curr_avail c₁.curr_avail res' c₂ (omega (arith, p.1, p.2)) answer,
            )
      ]
    ]
