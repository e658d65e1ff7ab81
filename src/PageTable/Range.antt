-- ===== src/PageTable/Range.antt =====
-- The loops of `boot_mm_pgtable_init` of src/arch/x86/boot/boot_mm.cpp over the sections of the kernel
-- and the frame buffer.
use closure_os.Base.{
  ℕ, zero, suc, ◌+◌, ◌-◌, ◌*◌, ◌/◌, ◌^◌, ◌≤◌, ◌<◌, ◌≡◌, ◌≢◌, refl, subst, ◌∙◌, bit_or, Bool, true,
  false, ◌==◌, ltb, Bool-cases, inl, inr, arith,
}
use closure_os.BootMem.{BootInfo, enomem, err_ptr, addr_is_in_used_range}
use closure_os.BootMem.Linear.{IsMap}
use closure_os.PageTable.{Boot, lookup}
use closure_os.PageTable.Write.{page_number}
use closure_os.PageTable.Map.{IsTables, ReadsUpdated}
use closure_os.PageTable.Init.{map_range, next_page}
use closure_os.PageTable.Runs.{Runs, Runs-ok, Runs-weaken, Failed, map_then}

-- The pages from `phys` below `phys_end` are read at `virt` with the attributes, and at all other
-- addresses nothing has changed.
abbrev pub RangeMapped : (root virt phys phys_end attr : ℕ) → Boot → Boot → Type 0
RangeMapped root virt phys phys_end attr b after =
    ((k : ℕ)
      → phys + 4096 * k < phys_end
      → lookup 3 root (virt + 4096 * k) after.word ≡ bit_or (phys + 4096 * k) attr)
    × ((va : ℕ)
        → ((k : ℕ) → phys + 4096 * k < phys_end → page_number va ≢ page_number (virt + 4096 * k))
        → lookup 3 root va after.word ≡ lookup 3 root va b.word)

-- One page more in front.
module _ (root virt phys phys_end attr : ℕ) (b b₁ after : Boot) (go : phys < phys_end)
    (short : phys_end ≤ phys + 2 ^ 48) (reads : ReadsUpdated root virt (bit_or phys attr) b b₁)
    (rest : RangeMapped root (virt + 4096) (phys + 4096) phys_end attr b₁ after) where
  first_mapped :
      (k : ℕ)
      → phys + 4096 * k < phys_end
      → lookup 3 root (virt + 4096 * k) after.word ≡ bit_or (phys + 4096 * k) attr
  first_mapped zero below =
      let same : (page_number virt == page_number virt) ≡ true = ground arith in
      let here : virt + 4096 * 0 ≡ virt = omega arith in
      let there : phys + 4096 * 0 ≡ phys = omega arith in
      rw (here, there) (rest.1 virt (λ k later e. absurd (omega arith)) ∙ reads virt ∙ rw same refl)
  first_mapped (suc k) below =
      let here : virt + 4096 * suc k ≡ virt + 4096 + 4096 * k = omega arith in
      let there : phys + 4096 * suc k ≡ phys + 4096 + 4096 * k = omega arith in
      rw (here, there) (rest.0 k (omega arith))

  first_others :
      (va : ℕ)
      → ((k : ℕ) → phys + 4096 * k < phys_end → page_number va ≢ page_number (virt + 4096 * k))
      → lookup 3 root va after.word ≡ lookup 3 root va b.word
  first_others va apart =
      let here : virt + 4096 * 0 ≡ virt = omega arith in
      let other : page_number va ≢ page_number virt =
        subst (λ (v : ℕ). page_number va ≢ page_number v) here (apart 0 (omega arith)) in
      let test : (page_number va == page_number virt) ≡ false = ground arith in
      rest.1 va (λ k below.
        subst (λ (v : ℕ). page_number va ≢ page_number v) (omega arith)
          (apart (suc k) (omega arith)))
      ∙ reads va
      ∙ rw test refl

module _ (info : BootInfo) (map : IsMap info)
    (no_err : addr_is_in_used_range info (err_ptr enomem) ≡ false) (fuel : ℕ) (unknown : Bool)
    (root : ℕ) where
  abbrev Ranged : (virt phys phys_end attr : ℕ) → Boot → Boot → Type 0
  Ranged virt phys phys_end attr b after =
      IsTables info fuel root after × RangeMapped root virt phys phys_end attr b after

  -- Where the range is at most 2 ^ 48 bytes long, neither it nor its image wraps around, and there is a
  -- round for each page and one more, the loop over a range ends. If it succeeds, each page of the range
  -- is read at its address with the attributes, and what is read at all other pages has not changed;
  -- with `unknown` false, it fails only when no available entry of the memory map has a page left.
  pub map_range-Runs :
      (rounds virt phys phys_end attr : ℕ) (b : Boot)
      → phys_end + 4096 ≤ 2 ^ 64
      → virt + (phys_end - phys + 4095) / 4096 * 4096 + 4096 ≤ 2 ^ 64
      → phys_end ≤ phys + 2 ^ 48
      → (phys_end - phys + 4095) / 4096 < rounds
      → IsTables info fuel root b
      → Runs
          (λ _. Ranged virt phys phys_end attr b)
          (Failed info unknown)
          (map_range fuel info root rounds virt phys phys_end attr b)
  unfolding map_range
  map_range-Runs zero virt phys phys_end attr b fits fits_virt short enough tables =
      absurd (omega arith)
  map_range-Runs (suc rounds) virt phys phys_end attr b fits fits_virt short enough tables =
      elim (Bool-cases (ltb phys phys_end)) [
        | inr done ↦ rw done (
            Runs-ok (λ _. Ranged virt phys phys_end attr b) (Failed info unknown) tt b
              (tables, ((λ k below. absurd (ground arith)), λ va apart. refl)))
        | inl go ↦
            let below : phys < phys_end = ground arith in
            let virt_eq : next_page virt ≡ virt + 4096 = omega arith in
            let phys_eq : next_page phys ≡ phys + 4096 = omega arith in
            rw go (
              map_then info map no_err fuel unknown (λ _. Ranged virt phys phys_end attr b) root
                virt phys attr b _ tables
                (λ b₁ tables₁ reads.
                  rw (virt_eq, phys_eq)
                    (Runs-weaken (λ _. Ranged virt phys phys_end attr b) (Failed info unknown) _
                      (map_range-Runs rounds (virt + 4096) (phys + 4096) phys_end attr b₁ fits
                        (omega arith) (omega arith) (omega arith) tables₁)
                      (λ _ b₂ (tables₂, mapped). (
                        tables₂,
                        (
                          first_mapped root virt phys phys_end attr b b₁ b₂ below short reads
                              mapped,
                          first_others root virt phys phys_end attr b b₁ b₂ below short reads
                              mapped,
                        ),
                      )))))
      ]
