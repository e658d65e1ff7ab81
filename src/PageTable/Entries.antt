-- ===== src/PageTable/Entries.antt =====
-- The direct map is made for all entries of the memory map: the outer loop of `boot_mm_pgtable_init`
-- of src/arch/x86/boot/boot_mm.cpp.
use closure_os.Base.{
  ℕ, zero, suc, ◌+◌, ◌*◌, ◌/◌, ◌%◌, ◌^◌, ◌≤◌, ◌<◌, ◌≡◌, subst, bit_and, Bool, false, ◌==◌, ltb,
  if◌then◌else◌, Bool-cases, inl, inr, arith,
}
use closure_os.Layout.{page_mask, kern_direct_map_region_base}
use closure_os.Layout.Align.{page_mask_lem}
use closure_os.BootMem.{BootInfo, enomem, err_ptr, addr_is_in_used_range}
use closure_os.BootMem.Linear.{IsMap}
use closure_os.PageTable.{Boot}
use closure_os.PageTable.Map.{IsTables}
use closure_os.PageTable.Init.{map_entries, rounds_between}
use closure_os.PageTable.Runs.{Runs, Runs-ok, Runs-bind, Runs-weaken, Failed}
use closure_os.PageTable.Direct.{IsDirect, Kept, Kept-refl, Kept-trans, map_direct-Runs}

-- Physical memory ends below 128 TB, where addresses of the direct map would wrap around.
abbrev pub IsSmall : BootInfo → Type 0
IsSmall info =
    (i : ℕ) → i < info.mmap_entry_nr → (info.entries i).addr + (info.entries i).len < 2 ^ 47

-- The whole pages of entry `j` below 64 TB are in the direct map; where the entry begins at a page,
-- `physmem_end` is behind them.
abbrev pub IsCovered : BootInfo → (root j physmem_end : ℕ) → Boot → Type 0
IsCovered info root j physmem_end after =
    (p : ℕ)
    → p % 4096 ≡ 0
    → (info.entries j).addr ≤ p
    → p + 4096 ≤ (info.entries j).addr + (info.entries j).len
    → ((info.entries j).addr % 4096 ≡ 0 → p + 4096 ≤ physmem_end)
      × (p < 2 ^ 46 → IsDirect root p after)

module _ (info : BootInfo) (map : IsMap info)
    (no_err : addr_is_in_used_range info (err_ptr enomem) ≡ false) (fuel : ℕ) (unknown : Bool)
    (root : ℕ) where
  abbrev Covers : (i rounds m : ℕ) → (b : Boot) → (physmem_end : ℕ) → Boot → Type 0
  Covers i rounds m b physmem_end after =
      IsTables info fuel root after
      × Kept root b after
      × (m ≤ physmem_end)
      × (physmem_end < 2 ^ 47)
      × ((j : ℕ) → i ≤ j → j < i + rounds → IsCovered info root j physmem_end after)

  -- The pages of an entry that has been mapped, whatever is mapped behind it.
  mapped-IsCovered :
      (i physmem_end : ℕ) (b b' : Boot)
      → ((p : ℕ)
          → p % 4096 ≡ 0
          → (info.entries i).addr / 4096 * 4096 ≤ p
          → p < (info.entries i).addr / 4096 * 4096 + (info.entries i).len
          → p < 2 ^ 46
          → IsDirect root p b)
      → Kept root b b'
      → (info.entries i).addr / 4096 * 4096 + (info.entries i).len ≤ physmem_end
      → IsCovered info root i physmem_end b'
  mapped-IsCovered i physmem_end b b' mapped kept behind p al first last = (
    (λ aligned. omega arith),
    λ in_region. kept.direct p al in_region (mapped p al (omega arith) (omega arith) in_region),
  )

  pub map_entries-Runs :
      IsSmall info
      → (rounds i m : ℕ) (b : Boot) → i + rounds ≤ info.mmap_entry_nr
      → m < 2 ^ 47
      → IsTables info fuel root b
      → Runs (Covers i rounds m b) (Failed info unknown) (map_entries fuel info root rounds i m b)
  unfolding map_entries
  map_entries-Runs small zero i m b inside low tables =
      Runs-ok (Covers i 0 m b) (Failed info unknown) m b
        (tables, Kept-refl root b, omega arith, low, λ j from below. absurd (omega arith))
  map_entries-Runs small (suc rounds) i m b inside low tables =
      let entry_small = small i (omega arith) in
      let base = (info.entries i).addr / 4096 * 4096 in
      let end_addr = base + (info.entries i).len in
      let base_eq : bit_and (info.entries i).addr page_mask ≡ base =
        page_mask_lem (info.entries i).addr (omega arith) in
      let end_eq : (base + (info.entries i).len) % 2 ^ 64 ≡ end_addr = omega arith in
      let virt_eq : (base + kern_direct_map_region_base) % 2 ^ 64
          ≡ kern_direct_map_region_base + base =
        omega arith in
      let no_wrap : ltb (kern_direct_map_region_base + base) base ≡ false = ground arith in
      let m' = if ltb m end_addr then end_addr else m in
      let up : m ≤ m' = ground arith in
      let up' : end_addr ≤ m' = ground arith in
      let bounded : m' < 2 ^ 47 = ground arith in
      rw (base_eq, end_eq, virt_eq, no_wrap)
        (Runs-bind (Covers i (suc rounds) m b) (Failed info unknown) _ _
          (map_direct-Runs info map no_err fuel unknown root (rounds_between base end_addr) base
            end_addr b (omega arith) (omega arith) (omega arith) (omega arith) tables)
          (λ e b' failed. failed)
          (λ _ b₁ (tables₁, kept₁, mapped).
            Runs-weaken (Covers i (suc rounds) m b) (Failed info unknown) _
              (map_entries-Runs small rounds (i + 1) m' b₁ (omega arith) bounded tables₁)
              (λ physmem_end b₂ (tables₂, kept₂, above, low₂, rest). (
                tables₂,
                Kept-trans kept₁ kept₂,
                omega arith,
                low₂,
                λ j from below. elim (Bool-cases (j == i)) [
                  | inl same ↦
                      let at_i : i ≡ j = ground arith in
                      subst (λ (k : ℕ). IsCovered info root k physmem_end b₂) at_i
                        (mapped-IsCovered i physmem_end b₁ b₂ mapped kept₂ (omega arith))
                  | inr other ↦ rest j (ground arith) (omega arith)
                ],
              ))))
