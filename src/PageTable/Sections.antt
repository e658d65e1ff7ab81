-- ===== src/PageTable/Sections.antt =====
-- The loops of `boot_mm_pgtable_init` of src/arch/x86/boot/boot_mm.cpp over the sections of the kernel
-- and the frame buffer end, and the tables stay in order.
use closure_os.Base.{
  ℕ, zero, suc, ◌+◌, ◌-◌, ◌/◌, ◌%◌, ◌^◌, ◌≤◌, ◌<◌, ◌≡◌, refl, bit_and, Bool, true, false, not, ◌&&◌,
  ◌||◌, Option, none, some, List, [], ◌∷◌, ◌==◌, ltb, Bool-cases, inl, inr, arith,
}
use closure_os.Layout.{page_align}
use closure_os.Layout.Align.{page_mask_lem}
use closure_os.BootMem.{Elf64Shdr, BootInfo, enomem, err_ptr, addr_is_in_used_range}
use closure_os.BootMem.Linear.{IsMap}
use closure_os.PageTable.{Boot, Outcome}
use closure_os.PageTable.Map.{IsTables}
use closure_os.PageTable.Init.{
  map_range, map_zeroed, map_section, map_sections, map_frame_buffer, next_page, sht_progbits,
  sht_nobits, shf_alloc, efault,
}
use closure_os.PageTable.Runs.{
  Runs, Runs-ok, Runs-err, Runs-bind, Runs-fail, Failed, Failed-weaken, Cleared, Cleared-IsTables,
  new_page-Runs, map_then,
}

-- A section is to be loaded, and its type has neither the bit of SHT_PROGBITS nor that of SHT_NOBITS.
unfoldable pub is_unknown : Elf64Shdr → Bool
is_unknown shdr =
    not (bit_and shdr.sh_flags shf_alloc == 0)
    && (bit_and shdr.sh_type sht_progbits == 0)
    && (bit_and shdr.sh_type sht_nobits == 0)

unfoldable pub has_unknown : List Elf64Shdr → Bool
has_unknown [] = false
has_unknown (shdr ∷ sections) = is_unknown shdr || has_unknown sections

page_align-fits : (x : ℕ) → page_align x + 4096 ≤ 2 ^ 64
unfolding page_align
page_align-fits x = omega (arith, page_mask_lem ((x + 4095) % 2 ^ 64) (omega arith))

module _ (info : BootInfo) (map : IsMap info)
    (no_err : addr_is_in_used_range info (err_ptr enomem) ≡ false) (fuel root : ℕ) where
  -- A step ends, in an error or with tables in order.
  abbrev pub EndsInTables : (unknown : Bool) → {A : Type 0} → Outcome A → Type 0
  EndsInTables unknown = Runs (λ _. IsTables info fuel root) (Failed info unknown)

  map_range-IsTables :
      (unknown : Bool) (rounds virt phys phys_end attr : ℕ) (b : Boot)
      → phys_end + 4096 ≤ 2 ^ 64
      → (phys_end - phys + 4095) / 4096 < rounds
      → IsTables info fuel root b
      → EndsInTables unknown (map_range fuel info root rounds virt phys phys_end attr b)
  unfolding map_range
  map_range-IsTables unknown zero virt phys phys_end attr b fits enough tables =
      absurd (omega arith)
  map_range-IsTables unknown (suc rounds) virt phys phys_end attr b fits enough tables =
      elim (Bool-cases (ltb phys phys_end)) [
        | inr done ↦ rw done (Runs-ok _ (Failed info unknown) tt b tables)
        | inl go ↦
            let below : phys < phys_end = ground arith in
            let phys_eq : next_page phys ≡ phys + 4096 = omega arith in
            rw go (
              map_then info map no_err fuel unknown _ root virt phys attr b _ tables
                (λ b₁ tables₁ reads. rw phys_eq (
                  map_range-IsTables unknown rounds (next_page virt) (phys + 4096) phys_end attr b₁
                    fits (omega arith) tables₁)))
      ]

  map_zeroed-IsTables :
      (unknown : Bool) (rounds virt virt_end attr : ℕ) (b : Boot)
      → virt_end + 4096 ≤ 2 ^ 64
      → (virt_end - virt + 4095) / 4096 < rounds
      → IsTables info fuel root b
      → EndsInTables unknown (map_zeroed fuel info root rounds virt virt_end attr b)
  unfolding map_zeroed
  map_zeroed-IsTables unknown zero virt virt_end attr b fits enough tables = absurd (omega arith)
  map_zeroed-IsTables unknown (suc rounds) virt virt_end attr b fits enough (label, tree, ready) =
      elim (Bool-cases (ltb virt virt_end)) [
        | inr done ↦ rw done (Runs-ok _ (Failed info unknown) tt b (label, tree, ready))
        | inl go ↦
            let below : virt < virt_end = ground arith in
            let virt_eq : next_page virt ≡ virt + 4096 = omega arith in
            rw go (
              Runs-bind {Post = Cleared info map no_err fuel unknown b} _ (Failed info unknown) _ _
                (new_page-Runs info map no_err fuel unknown b ready) (λ e b' failed. failed)
                (λ phys b₁ cleared.
                  let (tables₁, same) =
                    Cleared-IsTables info map no_err fuel unknown root b phys b₁
                      (label, tree, ready) cleared in
                  map_then info map no_err fuel unknown _ root virt phys attr b₁ _ tables₁
                    (λ b₂ tables₂ reads. rw virt_eq (
                      map_zeroed-IsTables unknown rounds (virt + 4096) virt_end attr b₂ fits
                        (omega arith) tables₂))))
      ]

  map_section-IsTables :
      (shdr : Elf64Shdr) (b : Boot)
      → IsTables info fuel root b
      → EndsInTables (is_unknown shdr) (map_section fuel info root shdr b)
  unfolding map_section is_unknown
  map_section-IsTables shdr b tables = elim (Bool-cases (bit_and shdr.sh_flags shf_alloc == 0)) [
    | inl skip ↦ rw skip (Runs-ok _ (Failed info _) tt b tables)
    | inr load ↦ elim (Bool-cases (bit_and shdr.sh_type sht_progbits == 0)) [
      | inr progbits ↦
          rw (load, progbits)
            (map_range-IsTables _ _ _ _ _ _ b (page_align-fits _) (omega arith) tables)
      | inl other ↦ elim (Bool-cases (bit_and shdr.sh_type sht_nobits == 0)) [
        | inr nobits ↦
            rw (load, other, nobits)
              (map_zeroed-IsTables _ _ _ _ _ b (page_align-fits _) (omega arith) tables)
        | inl unknown ↦
            rw (load, other, unknown) (Runs-err _ (Failed info true) efault b (inr (refl, refl)))
      ]
    ]
  ]

  pub map_sections-IsTables :
      (sections : List Elf64Shdr) (b : Boot)
      → IsTables info fuel root b
      → EndsInTables (has_unknown sections) (map_sections fuel info root sections b)
  unfolding map_sections has_unknown
  map_sections-IsTables [] b tables = Runs-ok _ (Failed info _) tt b tables
  map_sections-IsTables (shdr ∷ sections) b tables =
      Runs-bind _ (Failed info _) _ _ (map_section-IsTables shdr b tables)
        (Failed-weaken info _ _ (λ u. rw u refl))
        (λ _ b₁ tables₁.
          Runs-fail _ (Failed info _) _ (map_sections-IsTables sections b₁ tables₁)
            (Failed-weaken info _ _ (λ u. ground arith)))

  pub map_frame_buffer-IsTables :
      (unknown : Bool) (frame_buffer : Option (ℕ × ℕ)) (b : Boot)
      → IsTables info fuel root b
      → EndsInTables unknown (map_frame_buffer fuel info root frame_buffer b)
  unfolding map_frame_buffer
  map_frame_buffer-IsTables unknown none b tables = Runs-ok _ (Failed info _) tt b tables
  map_frame_buffer-IsTables unknown (some (base, end_addr)) b tables =
      map_range-IsTables _ _ _ _ _ _ b (page_align-fits _) (omega arith) tables
