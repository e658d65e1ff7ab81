-- ===== src/PageTable/Write.antt =====
-- The last write of `boot_mm_pgtable_map`: an entry of a table of level 0.
use closure_os.Base.{
  ℕ, zero, suc, ◌+◌, ◌*◌, ◌/◌, ◌%◌, ◌^◌, ◌<◌, ◌≡◌, ◌≢◌, refl, sym, ap, ◌∙◌, some, ◌==◌,
  if◌then◌else◌, Bool-cases, inl, inr, arith,
}
use mathlib.Core.Option.{some-injective}
use closure_os.Bits.{bit_and_low}
use closure_os.PageTable.{
  Boot, slot, index, lookup, write, pte_entry, pmd_entry, pud_entry, pgd_entry,
}
use closure_os.PageTable.Tree.{
  table, Labels, target, IsTree, index-lt, slot-ne, lookup-missing, lookup-step,
}

-- The number of the page of `va`, among the 2 ^ 36 pages that four indices of nine bits tell apart.
abbrev pub page_number : ℕ → ℕ
page_number va = va / 4096 % 2 ^ 36

-- The path that a table of level `l` at path `y` and the indices of `va` below it make up.
unfoldable pub number : (l y va : ℕ) → ℕ
number zero y va = y * 512 + index zero va
number (suc l) y va = number l (y * 512 + index (suc l) va) va

pub number-page : (va : ℕ) → number 3 0 va ≡ page_number va
unfolding number pte_entry pmd_entry pud_entry pgd_entry
number-page va = omega (
  arith,
  bit_and_low 9 (va / 2 ^ 12),
  bit_and_low 9 (va / 2 ^ 21),
  bit_and_low 9 (va / 2 ^ 30),
  bit_and_low 9 (va / 2 ^ 39),
)

-- Addresses of one page have the same indices, and read the same.
pub lookup-same :
    (l y y' va va' t : ℕ) (word : ℕ → ℕ)
    → number l y va ≡ number l y' va'
    → (y ≡ y') × (lookup l t va word ≡ lookup l t va' word)
unfolding number lookup
lookup-same zero y y' va va' t word e =
    let small = index-lt 0 va in
    let small' = index-lt 0 va' in (omega arith, ap (λ (i : ℕ). word (slot t i)) (omega arith))
lookup-same (suc l) y y' va va' t word e =
    let small = index-lt (suc l) va in
    let small' = index-lt (suc l) va' in
    let (path, rest) =
      lookup-same l _ _ va va' (target (word (slot t (index (suc l) va)))) word e in
    let i : index (suc l) va ≡ index (suc l) va' = omega arith in
    (
      omega arith,
      ap (λ (n : ℕ). if word (slot t (index (suc l) va)) == 0 then 0 else n) rest
          ∙ ap
              (λ (k : ℕ).
                if word (slot t k) == 0 then 0 else lookup l (target (word (slot t k))) va' word)
              i,
    )

module _ (root : ℕ) (label : Labels) (b : Boot) (tree : IsTree root label b) (p z i value : ℕ)
    (leaf : label p ≡ some (table 0 z)) (small : i < 512) where
  abbrev pub after_write : Boot
  after_write = record b { word = write (slot p i) value b.word }

  abbrev after : Boot
  after = after_write

  -- The entries of the tables above level 0 are as before.
  above :
      (t l y k : ℕ)
      → label t ≡ some (table (suc l) y)
      → k < 512
      → after.word (slot t k) ≡ b.word (slot t k)
  above t l y k lab hk =
      let at = tree.placed t _ lab in
      let at' = tree.placed p _ leaf in
      let other : t ≢ p = λ e. ground (arith, some-injective _ _ (sym lab ∙ ap label e ∙ leaf)) in
      let ne = slot-ne t p k i at.0 at'.0 hk small other in ground arith

  pub write-IsTree : IsTree root label after
  write-IsTree = record {
    top = tree.top;
    child = λ t l y k lab hk ne.
        let e = above t l y k lab hk in
        ap (λ (n : ℕ). label (target n)) e ∙ tree.child t l y k lab hk (λ z. ne (e ∙ z));
    placed = tree.placed;
  }

  pub write-other :
      (l t y va : ℕ)
      → label t ≡ some (table l y)
      → number l y va ≢ z * 512 + i
      → lookup l t va after.word ≡ lookup l t va b.word
  unfolding number lookup
  write-other zero t y va lab other = elim (Bool-cases (t == p)) [
    | inl same ↦
        let e : t ≡ p = ground arith in
        let paths : table 0 y ≡ table 0 z = some-injective _ _ (sym lab ∙ ap label e ∙ leaf) in
        let path : y ≡ z = ground arith in
        let ne : slot t (index 0 va) ≢ slot p i = omega arith in ground arith
    | inr different ↦
        let ne =
          slot-ne t p (index 0 va) i (tree.placed t _ lab).0 (tree.placed p _ leaf).0
            (index-lt 0 va) small (ground arith) in
        ground arith
  ]
  write-other (suc l) t y va lab other =
      let e = above t l y _ lab (index-lt (suc l) va) in
      elim (Bool-cases (b.word (slot t (index (suc l) va)) == 0)) [
        | inl none_there ↦
            let zero_there : b.word (slot t (index (suc l) va)) ≡ 0 = ground arith in
            lookup-missing l t va after.word (e ∙ zero_there)
            ∙ sym (lookup-missing l t va b.word zero_there)
        | inr some_there ↦
            let ne : b.word (slot t (index (suc l) va)) ≢ 0 = ground arith in
            lookup-step l t va _ after.word e ne
            ∙ write-other l _ _ va (tree.child t l y _ lab (index-lt (suc l) va) ne) other
            ∙ sym (lookup-step l t va _ b.word refl ne)
      ]

  -- A step of the walk to the entry that was written.
  pub write-step :
      (t t' l y va : ℕ)
      → label t ≡ some (table (suc l) y)
      → b.word (slot t (index (suc l) va)) ≢ 0
      → target (b.word (slot t (index (suc l) va))) ≡ t'
      → lookup (suc l) t va after.word ≡ lookup l t' va after.word
  write-step t t' l y va lab ne there =
      lookup-step l t va _ after.word (above t l y _ lab (index-lt (suc l) va)) ne
      ∙ ap (λ (q : ℕ). lookup l q va after.word) there

  pub write-here : (va : ℕ) → index 0 va ≡ i → lookup 0 p va after.word ≡ value
  unfolding lookup
  write-here va e = ground arith
