-- ===== src/PageTable/Grow.antt =====
-- A new table behind an empty entry.
use closure_os.Base.{
  ℕ, zero, suc, ◌+◌, ◌*◌, ◌%◌, ◌^◌, ◌≤◌, ◌<◌, ◌≡◌, ◌≢◌, refl, sym, ap, ◌∙◌, bit_or, false, some,
  ◌==◌, if◌then◌else◌, Bool-cases, ◌⊎◌, inl, inr, arith,
}
use mathlib.Core.Option.{some-injective}
use closure_os.BootMem.{Cursor}
use closure_os.PageTable.{Boot, slot, index, lookup, write, clear_page, pde_default}
use closure_os.PageTable.Tree.{
  Label, table, Labels, index-lt, target, IsTree, Grown, entry-eq, entry-target, lookup-empty,
  lookup-missing, lookup-step,
}

-- The memory with the page at `res` made a table behind the entry at `entry`.
abbrev pub grown_word : (entry res : ℕ) → (ℕ → ℕ) → ℕ → ℕ
grown_word entry res word =
    let cleared = clear_page res (write entry res word) in
    write entry (bit_or (cleared entry) pde_default) cleared

abbrev pub labelled : (res : ℕ) → Label → Labels → Labels
labelled res q label p = if p == res then some q else label p

module _ (root : ℕ) (label : Labels) (b : Boot) (tree : IsTree root label b) (t l y i : ℕ)
    (here : label t ≡ some (table (suc l) y)) (small : i < 512) (empty : b.word (slot t i) ≡ 0)
    (res : ℕ) (c : Cursor) (al : res % 4096 ≡ 0) (fresh : b.cursor.curr_avail ≤ res)
    (next : c.curr_avail ≡ res + 4096) (low : res < 2 ^ 52) where
  abbrev after : Boot
  after = record { word = grown_word (slot t i) res b.word; cursor = c }

  abbrev label' : Labels
  label' = labelled res (table l (y * 512 + i)) label

  pub at_entry : after.word (slot t i) ≡ bit_or res pde_default
  at_entry = let there = tree.placed t _ here in ground arith

  in_page : (k : ℕ) → k < 512 → after.word (slot res k) ≡ 0
  in_page k hk = let there = tree.placed t _ here in ground arith

  elsewhere :
      (t' k : ℕ) (q : Label)
      → label t' ≡ some q
      → k < 512
      → slot t' k ≢ slot t i
      → after.word (slot t' k) ≡ b.word (slot t' k)
  elsewhere t' k q lab hk ne = let there = tree.placed t' q lab in ground arith

  new : (t' : ℕ) (q : Label) → label t' ≡ some q → t' ≢ res
  new t' q lab = let there = tree.placed t' q lab in omega arith

  old : (t' : ℕ) (q : Label) → label t' ≡ some q → label' t' ≡ some q
  old t' q lab = let ne = new t' q lab in ground arith

  unlabelled : (t' : ℕ) (q : Label) → label t' ≡ some q → (t' == res) ≡ false
  unlabelled t' q lab = let ne = new t' q lab in ground arith

  -- An entry of a table of `b` is the entry that was filled, or it is as before.
  entry_cases :
      (t' k : ℕ) (q : Label)
      → label t' ≡ some q
      → k < 512
      → ((t' ≡ t) × (k ≡ i))
        ⊎ ((slot t' k ≢ slot t i) × (after.word (slot t' k) ≡ b.word (slot t' k)))
  entry_cases t' k q lab hk = elim (Bool-cases (slot t' k == slot t i)) [
    | inl same ↦
        let there = tree.placed t' q lab in
        let there' = tree.placed t _ here in inl (ground arith, ground arith)
    | inr other ↦
        let ne : slot t' k ≢ slot t i = ground arith in inr (ne, elsewhere t' k q lab hk ne)
  ]

  grown_child :
      (t' l' y' k : ℕ)
      → label' t' ≡ some (table (suc l') y')
      → k < 512
      → after.word (slot t' k) ≢ 0
      → label' (target (after.word (slot t' k))) ≡ some (table l' (y' * 512 + k))
  grown_child t' l' y' k lab hk ne = elim (Bool-cases (t' == res)) [
    | inl same ↦
        let e : t' ≡ res = ground arith in
        absurd (ne (ap (λ (p : ℕ). after.word (slot p k)) e ∙ in_page k hk))
    | inr other ↦
        let lab₀ : label t' ≡ some (table (suc l') y') = ground arith in
        elim (entry_cases t' k _ lab₀ hk) [
          | inl (et, ek) ↦
              let same_label : table (suc l') y' ≡ table (suc l) y =
                some-injective _ _ (sym lab₀ ∙ ap label et ∙ here) in
              let there : target (after.word (slot t' k)) ≡ res =
                ap (λ (a : ℕ). target (after.word a)) (omega arith)
                ∙ ap target at_entry
                ∙ entry-target res al low in
              ap label' there ∙ ground arith
          | inr (apart, e) ↦
              let child = tree.child t' l' y' k lab₀ hk (λ z. ne (e ∙ z)) in
              ap (λ (n : ℕ). label' (target n)) e ∙ old _ _ child
        ]
  ]

  grown_placed :
      (t' : ℕ) (q : Label) → label' t' ≡ some q → (t' % 4096 ≡ 0) × (t' + 4096 ≤ c.curr_avail)
  grown_placed t' q lab = elim (Bool-cases (t' == res)) [
    | inl same ↦ ground arith
    | inr other ↦ let there = tree.placed t' q (ground arith) in (there.0, omega arith)
  ]

  grown_view :
      (l' t' y' va : ℕ)
      → label t' ≡ some (table l' y')
      → lookup l' t' va after.word ≡ lookup l' t' va b.word
  unfolding lookup
  grown_view zero t' y' va lab = elim (entry_cases t' (index zero va) _ lab (index-lt zero va)) [
    | inl (et, ei) ↦ absurd (ground (arith, some-injective _ _ (sym lab ∙ ap label et ∙ here)))
    | inr (apart, e) ↦ e
  ]
  grown_view (suc l') t' y' va lab =
      elim (entry_cases t' (index (suc l') va) _ lab (index-lt (suc l') va)) [
        | inl (et, ei) ↦
            let at : slot t' (index (suc l') va) ≡ slot t i = omega arith in
            lookup-step l' t' va (bit_or res pde_default) after.word (ap after.word at ∙ at_entry)
              (rw (entry-eq res al) (omega arith))
            ∙ ap (λ (p : ℕ). lookup l' p va after.word) (entry-target res al low)
            ∙ lookup-empty l' res va after.word in_page
            ∙ sym (lookup-missing l' t' va b.word (ap b.word at ∙ empty))
        | inr (apart, e) ↦ elim (Bool-cases (b.word (slot t' (index (suc l') va)) == 0)) [
          | inl none_there ↦
              let z : b.word (slot t' (index (suc l') va)) ≡ 0 = ground arith in
              lookup-missing l' t' va after.word (e ∙ z) ∙ sym (lookup-missing l' t' va b.word z)
          | inr some_there ↦
              let ne : b.word (slot t' (index (suc l') va)) ≢ 0 = ground arith in
              lookup-step l' t' va _ after.word e ne
              ∙ grown_view l' _ _ va (tree.child t' l' y' _ lab (index-lt (suc l') va) ne)
              ∙ sym (lookup-step l' t' va _ b.word refl ne)
        ]
      ]

  pub fill-Grown : Grown root label b label' after
  fill-Grown = record {
    tree = record { top = old root _ tree.top; child = grown_child; placed = grown_placed };
    extends = old;
    kept = λ t' q k lab hk ne. elim (entry_cases t' k q lab hk) [
      | inl (et, ek) ↦ absurd (ne (ap b.word (omega arith) ∙ empty))
      | inr (apart, e) ↦ e
    ];
    view = grown_view;
    forward = omega arith;
  }
