-- ===== src/PageTable/Map.antt =====
-- `boot_mm_pgtable_map` of src/arch/x86/boot/boot_mm.cpp changes what is read at one page.
use closure_os.Base.{
  ℕ, suc, ◌+◌, ◌*◌, ◌≤◌, ◌≡◌, ◌≢◌, refl, sym, ap, ◌∙◌, bit_or, false, some, ◌==◌, if◌then◌else◌,
  Bool-cases, ◌⊎◌, inl, inr, arith,
}
use closure_os.BootMem.{BootInfo, enomem, err_ptr, addr_is_in_used_range}
use closure_os.BootMem.Linear.{IsMap}
use closure_os.PageTable.{
  Boot, Outcome, ok, Run, and_then, slot, index, lookup, write, next_table, boot_mm_pgtable_map,
}
use closure_os.PageTable.Tree.{table, Labels, target, IsTree, Grown, index-lt}
use closure_os.PageTable.Next.{IsReady, IsReady-step, Fails, next_table_lem}
use closure_os.PageTable.Write.{
  page_number, number, number-page, lookup-same, write-IsTree, write-other, write-step, write-here,
}

-- The tables under `root` are in order, and the allocator can be called.
abbrev pub IsTables : (info : BootInfo) → (fuel root : ℕ) → Boot → Type 0
IsTables info fuel root b = (label : Labels) × IsTree root label b × IsReady info fuel b

-- The same entry is read at all addresses.
abbrev pub ReadsSame : (root : ℕ) → Boot → Boot → Type 0
ReadsSame root b after = (va : ℕ) → lookup 3 root va after.word ≡ lookup 3 root va b.word

-- The entry `value` is read in the page of `va`, and what was there at all other addresses.
abbrev pub ReadsUpdated : (root va value : ℕ) → Boot → Boot → Type 0
ReadsUpdated root va value b after =
    (va' : ℕ)
    → lookup 3 root va' after.word
      ≡ (if page_number va' == page_number va then value else lookup 3 root va' b.word)

-- What the mapping of a page leaves.
abbrev pub Maps : BootInfo → (fuel root va value : ℕ) → Boot → Outcome (Unit {0}) → Type 0
Maps info fuel root va value b run =
    (after : Boot) × IsTables info fuel root after
    × (b.cursor.curr_avail ≤ after.cursor.curr_avail)
    × (((run ≡ ok tt after) × ReadsUpdated root va value b after)
        ⊎ (Fails info run after × ReadsSame root b after))

-- The entry of `t` for `va` leads to `t'`, a table of level `l`.
abbrev Edge : (l va : ℕ) → Labels → Boot → (path t t' : ℕ) → Type 0
Edge l va label b path t t' =
    (label t ≡ some (table (suc l) path))
    × (label t' ≡ some (table l (path * 512 + index (suc l) va)))
    × (b.word (slot t (index (suc l) va)) ≢ 0)
    × (target (b.word (slot t (index (suc l) va))) ≡ t')

Edge-Grown :
    {root : ℕ} (l va path t t' : ℕ) {label label' : Labels} {b b' : Boot}
    → Grown root label b label' b'
    → Edge l va label b path t t'
    → Edge l va label' b' path t t'
Edge-Grown l va path t t' g (lab, lab', ne, there) =
    let e = g.kept t _ (index (suc l) va) lab (index-lt (suc l) va) ne in
    (g.extends t _ lab, g.extends _ _ lab', (λ z. ne (sym e ∙ z)), ap target e ∙ there)

-- Tables that are made first do not show.
Maps-after :
    {info : BootInfo} {fuel root : ℕ} (va value : ℕ) {label label' : Labels} {b b' : Boot}
    {run run' : Outcome Unit}
    → IsTree root label b
    → Grown root label b label' b'
    → run ≡ run'
    → Maps info fuel root va value b' run'
    → Maps info fuel root va value b run
Maps-after {root = root} va value tree g e (after, good, forward, answer) =
    let before = λ (va' : ℕ). g.view 3 root 0 va' tree.top in
    (
      after,
      good,
      omega (arith, g.forward, forward),
      elim answer [
        | inl (done, reads) ↦ inl (
          e ∙ done,
          λ va'.
              reads va'
              ∙ ap (λ (n : ℕ). if page_number va' == page_number va then value else n) (before va'),
        )
        | inr ((failed, rest), reads) ↦ inr ((e ∙ failed, rest), λ va'. reads va' ∙ before va')
      ],
    )

module _ (info : BootInfo) (fuel root va value : ℕ) (label : Labels) (b : Boot)
    (tree : IsTree root label b) (ready : IsReady info fuel b) (pud pmd pte : ℕ)
    (to_pud : Edge 2 va label b 0 root pud)
    (to_pmd : Edge 1 va label b (0 * 512 + index 3 va) pud pmd)
    (to_pte : Edge 0 va label b ((0 * 512 + index 3 va) * 512 + index 2 va) pmd pte) where
  abbrev after : Boot
  after = record b { word = write (slot pte (index 0 va)) value b.word }

  reads_value : lookup 3 root va after.word ≡ value
  reads_value =
      let small = index-lt 0 va in
      let leaf = to_pte.1 in
      write-step root label b tree pte _ (index 0 va) value leaf small root pud 2 0 va to_pud.0
        to_pud.2 to_pud.3
      ∙ write-step root label b tree pte _ (index 0 va) value leaf small pud pmd 1 _ va to_pmd.0
          to_pmd.2 to_pmd.3
      ∙ write-step root label b tree pte _ (index 0 va) value leaf small pmd pte 0 _ va to_pte.0
          to_pte.2 to_pte.3
      ∙ write-here root label b tree pte _ (index 0 va) value leaf small va refl

  written_reads : ReadsUpdated root va value b after
  unfolding number
  written_reads va' = elim (Bool-cases (page_number va' == page_number va)) [
    | inl same ↦
        let e : page_number va' ≡ page_number va = ground arith in
        let here =
          lookup-same 3 0 0 va' va root after.word (number-page va' ∙ e ∙ sym (number-page va)) in
        rw same (here.1 ∙ reads_value)
    | inr other ↦
        let ne : page_number va' ≢ page_number va = ground arith in
        rw other (
          write-other root label b tree pte _ (index 0 va) value to_pte.1 (index-lt 0 va) 3 root 0
            va' tree.top (λ e. ne (sym (number-page va') ∙ e ∙ number-page va)))
  ]

  written-Maps : (run : Outcome Unit) → run ≡ ok tt after → Maps info fuel root va value b run
  written-Maps run e = (
    after,
    (
      label,
      write-IsTree root label b tree pte _ (index 0 va) value to_pte.1 (index-lt 0 va),
      IsReady-step ready (omega arith) ready.in_order,
    ),
    omega arith,
    inl (e, written_reads),
  )

module _ (info : BootInfo) (map : IsMap info)
    (no_err : addr_is_in_used_range info (err_ptr enomem) ≡ false) (fuel root va value : ℕ) where
  -- One level of the walk: what is left to do in the table behind the entry is `rest`.
  level :
      (l path t : ℕ) (label : Labels) (b : Boot) (rest : ℕ → Run Unit)
      → IsTree root label b
      → IsReady info fuel b
      → label t ≡ some (table (suc l) path)
      → ((label' : Labels) (b' : Boot) (t' : ℕ)
          → Grown root label b label' b'
          → IsReady info fuel b'
          → Edge l va label' b' path t t'
          → Maps info fuel root va value b' (rest t' b'))
      → Maps info fuel root va value b (and_then (next_table fuel info t (index (suc l) va) b) rest)
  level l path t label b rest tree ready lab go =
      let s =
        next_table_lem info map no_err fuel root label b tree ready t l path (index (suc l) va) lab
          (index-lt (suc l) va) in
      let step = λ (r : Outcome ℕ). and_then r rest in
      elim s.answer [
        | inl (failed, none_left) ↦ (
          s.after,
          (s.label', s.grown.tree, s.ready),
          s.grown.forward,
          inr ((ap step failed, none_left), λ va'. s.grown.view 3 root 0 va' tree.top),
        )
        | inr (t', run, lab', ne, there) ↦
            Maps-after va value tree s.grown (ap step run)
              (go s.label' s.after t' s.grown s.ready (s.grown.extends _ _ lab, lab', ne, there))
      ]

-- Where the tables are in order and the allocator can be called, the mapping of the page of `va`
-- returns within the fuel. Either it reports success, and the processor then reads `pa | attr` at all
-- addresses of that page and what it read before at all others; or it reports `ENOMEM` because no
-- available entry of the memory map has a page left, and the processor reads what it read before at
-- every address. The tables stay in order in both cases.
pub boot_mm_pgtable_map_lem :
    (info : BootInfo) (fuel root va pa attr : ℕ) (b : Boot)
    → IsMap info
    → addr_is_in_used_range info (err_ptr enomem) ≡ false
    → IsTables info fuel root b
    → Maps info fuel root va (bit_or pa attr) b (boot_mm_pgtable_map fuel info root va pa attr b)
unfolding boot_mm_pgtable_map
boot_mm_pgtable_map_lem info fuel root va pa attr b map no_err (label, tree, ready) =
    let value = bit_or pa attr in
    level info map no_err fuel root va value 2 0 root label b _ tree ready tree.top
      (λ label₁ b₁ pud g₁ r₁ to_pud.
        level info map no_err fuel root va value 1 _ pud label₁ b₁ _ g₁.tree r₁ to_pud.1
          (λ label₂ b₂ pmd g₂ r₂ to_pmd.
            level info map no_err fuel root va value 0 _ pmd label₂ b₂ _ g₂.tree r₂ to_pmd.1
              (λ label₃ b₃ pte g₃ r₃ to_pte.
                written-Maps info fuel root va value label₃ b₃ g₃.tree r₃ pud pmd pte
                  (Edge-Grown 2 va 0 root pud g₃ (Edge-Grown 2 va 0 root pud g₂ to_pud))
                  (Edge-Grown 1 va _ pud pmd g₃ to_pmd) to_pte _ refl)))
