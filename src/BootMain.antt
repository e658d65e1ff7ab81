-- ===== src/BootMain.antt =====
-- src/arch/x86/boot/boot_main.cpp: the map of the first 512 GB that the boot stage runs on.
use closure_os.Base.{
  ℕ, zero, suc, ◌+◌, ◌*◌, ◌/◌, ◌%◌, ◌^◌, ◌≤◌, ◌<◌, ◌≡◌, refl, ap, ◌∙◌, bit_or, true, false, ◌==◌,
  ltb, leb, ◌&&◌, if◌then◌else◌, Bool-cases, inl, inr, arith,
}
use closure_os.Bits.{bit_and_low, bit_or_fields}
use closure_os.Kernel.{update}
use closure_os.PageTable.{pde_attr_p, pde_attr_rw, pde_attr_ps, pud_entry}

-- The loop of `boot_pgtable_init` over the entries of `boot_pud` from `i` on.
unfoldable pub fill_pud : (rounds i : ℕ) → (boot_pud : ℕ → ℕ) → ℕ → ℕ
fill_pud zero i boot_pud = boot_pud
fill_pud (suc rounds) i boot_pud =
    let entry =
      bit_or (i * 0x40000000 % 2 ^ 64) (bit_or (bit_or pde_attr_p pde_attr_rw) pde_attr_ps) in
    fill_pud rounds (i + 1) (update boot_pud i entry)

unfoldable pub boot_pgtable_init : (boot_pud : ℕ → ℕ) → ℕ → ℕ
unfolding fill_pud
boot_pgtable_init boot_pud = fill_pud 511 1 boot_pud

-- What an entry for a page of 1 GB maps `va` to: the bits from 30 on are those of the page.
abbrev pub large_page : (entry va : ℕ) → ℕ
large_page entry va = entry / 2 ^ 30 * 2 ^ 30 + va % 2 ^ 30

fill_pud_lem :
    (rounds i : ℕ) (boot_pud : ℕ → ℕ) (j : ℕ)
    → i + rounds ≤ 512
    → fill_pud rounds i boot_pud j
      ≡ (if leb i j && ltb j (i + rounds) then j * 2 ^ 30 + 0x83 else boot_pud j)
unfolding fill_pud
fill_pud_lem zero i boot_pud j small =
    let out : (leb i j && ltb j (i + 0)) ≡ false = ground arith in rw out refl
fill_pud_lem (suc rounds) i boot_pud j small =
    let e : bit_or (i * 0x40000000 % 2 ^ 64) 0x83 ≡ i * 2 ^ 30 + 0x83 =
      ap (λ (x : ℕ). bit_or x 0x83) (omega arith) ∙ bit_or_fields 30 i 0x83 (omega arith) in
    fill_pud_lem rounds (i + 1) _ j (omega arith) ∙ (elim (Bool-cases (i == j)) [
      | inl same ↦
          let here : i ≡ j = ground arith in
          let behind : (leb (i + 1) j && ltb j (i + 1 + rounds)) ≡ false = ground arith in
          let inside : (leb i j && ltb j (i + suc rounds)) ≡ true = ground arith in
          rw (behind, same, inside) (e ∙ ap (λ (k : ℕ). k * 2 ^ 30 + 0x83) here)
      | inr other ↦
          let tests : (leb (i + 1) j && ltb j (i + 1 + rounds))
              ≡ (leb i j && ltb j (i + suc rounds)) =
            ground arith in
          rw (tests, other) refl
    ])

pud_at :
    (boot_pud : ℕ → ℕ) (j : ℕ)
    → boot_pgtable_init boot_pud j
      ≡ (if leb 1 j && ltb j 512 then j * 2 ^ 30 + 0x83 else boot_pud j)
unfolding boot_pgtable_init
pud_at boot_pud j = fill_pud_lem 511 1 boot_pud j (omega arith)

-- `boot_pgtable_init` maps each address from 1 GB below 512 GB to itself, for reading and writing, with
-- pages of 1 GB; the entry of the first GB is left as it was.
pub boot_pgtable_init_lem :
    (boot_pud : ℕ → ℕ) (va : ℕ)
    → 2 ^ 30 ≤ va
    → va < 2 ^ 39
    → (large_page (boot_pgtable_init boot_pud (pud_entry va)) va ≡ va)
      × (boot_pgtable_init boot_pud (pud_entry va) % 2 ^ 30 ≡ 0x83)
      × (boot_pgtable_init boot_pud 0 ≡ boot_pud 0)
unfolding pud_entry
boot_pgtable_init_lem boot_pud va large small =
    let i : pud_entry va ≡ va / 2 ^ 30 = bit_and_low 9 (va / 2 ^ 30) ∙ omega arith in
    let inside : (leb 1 (va / 2 ^ 30) && ltb (va / 2 ^ 30) 512) ≡ true = ground arith in
    let entry : boot_pgtable_init boot_pud (pud_entry va) ≡ va / 2 ^ 30 * 2 ^ 30 + 0x83 =
      ap (boot_pgtable_init boot_pud) i ∙ pud_at boot_pud (va / 2 ^ 30) ∙ rw inside refl in
    (omega (arith, entry), omega (arith, entry), pud_at boot_pud 0)
