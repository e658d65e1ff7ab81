-- ===== src/PageTable/Direct.antt =====
-- The direct map of the physical memory, which `boot_mm_pgtable_init` of src/arch/x86/boot/boot_mm.cpp
-- makes from the memory map.
use closure_os.Base.{
  ℕ, zero, suc, ◌+◌, ◌-◌, ◌/◌, ◌%◌, ◌^◌, ◌≤◌, ◌<◌, ◌≡◌, ◌≢◌, refl, sym, ap, subst, ◌∙◌, bit_or,
  Bool, true, false, ◌==◌, ltb, Bool-cases, inl, inr, arith,
}
use closure_os.Layout.{kern_direct_map_region_base}
use closure_os.BootMem.{BootInfo, enomem, err_ptr, addr_is_in_used_range}
use closure_os.BootMem.Linear.{IsMap}
use closure_os.PageTable.{Boot, lookup}
use closure_os.PageTable.Tree.{entry-eq}
use closure_os.PageTable.Write.{page_number}
use closure_os.PageTable.Map.{IsTables, ReadsUpdated, ReadsSame}
use closure_os.PageTable.Init.{map_direct, next_page}
use closure_os.PageTable.Runs.{Runs, Runs-weaken, Failed, map_then}

-- The physical page at `pa` is read and written at its address of the direct map.
abbrev pub IsDirect : (root pa : ℕ) → Boot → Type 0
IsDirect root pa b = lookup 3 root (kern_direct_map_region_base + pa) b.word ≡ bit_or pa 3

-- The pages of the direct map and the presence of a page are not lost.
pub record Kept (root : ℕ) (b b' : Boot) : Type 0 where
  pub direct : (pa : ℕ) → pa % 4096 ≡ 0 → pa < 2 ^ 46 → IsDirect root pa b → IsDirect root pa b'
  pub present : (va : ℕ) → lookup 3 root va b.word ≢ 0 → lookup 3 root va b'.word ≢ 0

pub Kept-refl : (root : ℕ) (b : Boot) → Kept root b b
Kept-refl root b = record { direct = λ pa al small d. d; present = λ va p. p }

pub Kept-trans : {root : ℕ} {b b₁ b₂ : Boot} → Kept root b b₁ → Kept root b₁ b₂ → Kept root b b₂
Kept-trans k k' = record {
  direct = λ pa al small d. k'.direct pa al small (k.direct pa al small d);
  present = λ va p. k'.present va (k.present va p);
}

pub same-Kept : (root : ℕ) (b b' : Boot) → ReadsSame root b b' → Kept root b b'
same-Kept root b b' same = record {
  direct = λ pa al small d. same _ ∙ d;
  present = λ va p z. p (sym (same va) ∙ z);
}

-- A page that is mapped, where it is not in the way of the direct map.
pub updated-Kept :
    (root va value : ℕ) (b b' : Boot)
    → ReadsUpdated root va value b b'
    → value ≢ 0
    → ((pa : ℕ)
        → pa % 4096 ≡ 0
        → pa < 2 ^ 46
        → page_number (kern_direct_map_region_base + pa) ≡ page_number va
        → value ≡ bit_or pa 3)
    → Kept root b b'
updated-Kept root va value b b' reads ne fits = record {
  direct = λ pa al small d.
      elim (Bool-cases (page_number (kern_direct_map_region_base + pa) == page_number va)) [
        | inl same ↦
            reads (kern_direct_map_region_base + pa) ∙ rw same (fits pa al small (ground arith))
        | inr other ↦ reads (kern_direct_map_region_base + pa) ∙ rw other d
      ];
  present = λ va' p. elim (Bool-cases (page_number va' == page_number va)) [
    | inl same ↦ (λ z. ne (sym (reads va' ∙ rw same refl) ∙ z))
    | inr other ↦ (λ z. p (sym (reads va' ∙ rw other refl) ∙ z))
  ];
}

module _ (info : BootInfo) (map : IsMap info)
    (no_err : addr_is_in_used_range info (err_ptr enomem) ≡ false) (fuel : ℕ) (unknown : Bool)
    (root : ℕ) where
  -- The pages from `pa` below `end_addr` are in the direct map, and what was mapped is kept.
  abbrev pub DirectFrom : (pa end_addr : ℕ) → (b after : Boot) → Type 0
  DirectFrom pa end_addr b after =
      IsTables info fuel root after
      × Kept root b after
      × ((p : ℕ) → p % 4096 ≡ 0 → pa ≤ p → p < end_addr → p < 2 ^ 46 → IsDirect root p after)

  updated-IsDirect :
      (pa : ℕ) (b b' : Boot)
      → pa % 4096 ≡ 0
      → pa < 2 ^ 46
      → ReadsUpdated root (kern_direct_map_region_base + pa) (bit_or pa 3) b b'
      → Kept root b b' × IsDirect root pa b'
  updated-IsDirect pa b b' al small reads =
      let entry = entry-eq pa al in
      let here : (page_number (kern_direct_map_region_base + pa)
            == page_number (kern_direct_map_region_base + pa))
          ≡ true =
        ground arith in
      (
        updated-Kept root _ _ b b' reads (λ z. absurd (omega (arith, sym entry ∙ z)))
            (λ p al' small' e. ap (λ (x : ℕ). bit_or x 3) (omega arith)),
        reads (kern_direct_map_region_base + pa) ∙ rw here refl,
      )

  pub map_direct-Runs :
      (rounds pa end_addr : ℕ) (b : Boot)
      → pa % 4096 ≡ 0
      → pa < 2 ^ 47
      → end_addr < 2 ^ 47
      → (end_addr - pa + 4095) / 4096 < rounds
      → IsTables info fuel root b
      → Runs
          (λ _. DirectFrom pa end_addr b)
          (Failed info unknown)
          (map_direct fuel info root rounds (kern_direct_map_region_base + pa) pa end_addr b)
  unfolding Runs map_direct
  map_direct-Runs zero pa end_addr b al small bounded enough tables = absurd (omega arith)
  map_direct-Runs (suc rounds) pa end_addr b al small bounded enough tables =
      elim (Bool-cases (ltb pa end_addr)) [
        | inr done ↦
            rw done (tables, Kept-refl root b, λ p al' from below in_region. absurd (ground arith))
        | inl go ↦
            elim (Bool-cases (ltb 0xFFFF_BFFF_FFFF_FFFF (kern_direct_map_region_base + pa))) [
              | inl out ↦
                  rw (go, out)
                    (tables, Kept-refl root b, λ p al' from below in_region. absurd (ground arith))
              | inr inside ↦
                  let low : pa < 2 ^ 46 = ground arith in
                  let below_end : pa < end_addr = ground arith in
                  let virt : next_page (kern_direct_map_region_base + pa)
                      ≡ kern_direct_map_region_base + (pa + 4096) =
                    omega arith in
                  let phys : next_page pa ≡ pa + 4096 = omega arith in
                  rw (go, inside)
                    (map_then info map no_err fuel unknown (λ _. DirectFrom pa end_addr b) root _ pa
                      3 b _ tables
                      (λ b₁ tables₁ reads.
                        let (kept, here) = updated-IsDirect pa b b₁ al low reads in
                        rw (virt, phys)
                          (Runs-weaken (λ _. DirectFrom pa end_addr b) (Failed info unknown) _
                            (map_direct-Runs rounds (pa + 4096) end_addr b₁ (omega arith)
                              (omega arith) bounded (omega arith) tables₁)
                            (λ _ b₂ (tables₂, kept₂, mapped). (
                              tables₂,
                              Kept-trans kept kept₂,
                              λ p al' from below in_region. elim (Bool-cases (p == pa)) [
                                | inl same ↦
                                    subst (λ (q : ℕ). IsDirect root q b₂) (ground arith)
                                      (kept₂.direct pa al low here)
                                | inr later ↦ mapped p al' (ground arith) below in_region
                              ],
                            )))))
            ]
      ]
