-- ===== src/PageTable/Tree.antt =====
-- Which pages are tables, of which level, for which addresses.
use closure_os.Base.{
  ℕ, zero, suc, ◌+◌, ◌*◌, ◌/◌, ◌%◌, ◌^◌, ◌≤◌, ◌<◌, ◌≡◌, ◌≢◌, refl, sym, ap, ◌∙◌, bit_and, bit_or,
  Bool, false, Option, some, ◌==◌, if◌then◌else◌, Bool-cases, inl, inr, arith,
}
use closure_os.Bits.{bit_and_low, bit_or_fields}
use closure_os.Layout.{page_mask}
use closure_os.Layout.Align.{page_mask_lem}
use closure_os.PageTable.{
  Boot, slot, index, lookup, pde_default, pte_entry, pmd_entry, pud_entry, pgd_entry,
}

-- A table of level `level`, for the addresses whose indices above that level make up `path`.
pub data Label : Type 0 where
  table : (level path : ℕ) → Label

abbrev pub Labels : Type 0
Labels = ℕ → Option Label

pub index-lt : (l va : ℕ) → index l va < 512
unfolding pte_entry pmd_entry pud_entry pgd_entry
index-lt zero va = ground (arith, bit_and_low 9 (va / 2 ^ 12))
index-lt (suc zero) va = ground (arith, bit_and_low 9 (va / 2 ^ 21))
index-lt (suc (suc zero)) va = ground (arith, bit_and_low 9 (va / 2 ^ 30))
index-lt (suc (suc (suc l))) va = ground (arith, bit_and_low 9 (va / 2 ^ 39))

-- The table behind an entry.
abbrev pub target : ℕ → ℕ
target entry = bit_and entry page_mask

-- `root` is the top table; what a table of a level above 0 points to is a table of the level below;
-- tables are pages below the cursor. A page has one label at most, so that no two entries lead to one
-- table.
pub record IsTree (root : ℕ) (label : Labels) (b : Boot) : Type 0 where
  pub top : label root ≡ some (table 3 0)
  pub child :
      (t l y i : ℕ)
      → label t ≡ some (table (suc l) y)
      → i < 512
      → b.word (slot t i) ≢ 0
      → label (target (b.word (slot t i))) ≡ some (table l (y * 512 + i))
  pub placed :
      (t : ℕ) (q : Label) → label t ≡ some q → (t % 4096 ≡ 0) × (t + 4096 ≤ b.cursor.curr_avail)

-- The state `b'` has the tables of `b` and perhaps more, and reads the same at all addresses.
pub record Grown (root : ℕ) (label : Labels) (b : Boot) (label' : Labels) (b' : Boot) : Type 0 where
  pub tree : IsTree root label' b'
  pub extends : (t : ℕ) (q : Label) → label t ≡ some q → label' t ≡ some q
  pub kept :
      (t : ℕ) (q : Label) (i : ℕ)
      → label t ≡ some q
      → i < 512
      → b.word (slot t i) ≢ 0
      → b'.word (slot t i) ≡ b.word (slot t i)
  pub view :
      (l t y va : ℕ) → label t ≡ some (table l y) → lookup l t va b'.word ≡ lookup l t va b.word
  pub forward : b.cursor.curr_avail ≤ b'.cursor.curr_avail

-- Entries of different tables, or of different indices, are apart.
pub slot-ne :
    (t t' i i' : ℕ)
    → t % 4096 ≡ 0
    → t' % 4096 ≡ 0
    → i < 512
    → i' < 512
    → t ≢ t'
    → slot t i ≢ slot t' i'
slot-ne t t' i i' al al' small small' ne = omega arith

-- The entry that is made for a new table.
pub entry-eq : (res : ℕ) → res % 4096 ≡ 0 → bit_or res pde_default ≡ res + 3
entry-eq res al =
    let whole : res / 4096 * 4096 ≡ res = omega arith in
    ap (λ (x : ℕ). bit_or x pde_default) (sym whole)
    ∙ bit_or_fields 12 (res / 4096) 3 (omega arith)
    ∙ omega arith

pub entry-target : (res : ℕ) → res % 4096 ≡ 0 → res < 2 ^ 52 → target (bit_or res pde_default) ≡ res
entry-target res al low =
    ap target (entry-eq res al) ∙ page_mask_lem (res + 3) (omega arith) ∙ omega arith

-- A table without entries reads as 0.
pub lookup-empty :
    (l t va : ℕ) (word : ℕ → ℕ) → ((k : ℕ) → k < 512 → word (slot t k) ≡ 0) → lookup l t va word ≡ 0
unfolding lookup
lookup-empty zero t va word none_there = none_there (index zero va) (index-lt zero va)
lookup-empty (suc l) t va word none_there =
    let e = none_there (index (suc l) va) (index-lt (suc l) va) in
    ap (λ (n : ℕ). if n == 0 then 0 else lookup l (target n) va word) e

-- The two ways of a lookup at a level above 0.
pub lookup-missing :
    (l t va : ℕ) (word : ℕ → ℕ)
    → word (slot t (index (suc l) va)) ≡ 0
    → lookup (suc l) t va word ≡ 0
unfolding lookup
lookup-missing l t va word e = ap (λ (n : ℕ). if n == 0 then 0 else lookup l (target n) va word) e

pub lookup-step :
    (l t va n : ℕ) (word : ℕ → ℕ)
    → word (slot t (index (suc l) va)) ≡ n
    → n ≢ 0
    → lookup (suc l) t va word ≡ lookup l (target n) va word
unfolding lookup
lookup-step l t va n word e ne =
    let present : (n == 0) ≡ false = ground arith in
    ap (λ (m : ℕ). if m == 0 then 0 else lookup l (target m) va word) e
    ∙ ap (λ (b : Bool). if b then 0 else lookup l (target n) va word) present

pub Grown-refl :
    (root : ℕ) (label : Labels) (b : Boot) → IsTree root label b → Grown root label b label b
Grown-refl root label b tree = record {
  tree = tree;
  extends = λ t q lab. lab;
  kept = λ t q i lab hi ne. refl;
  view = λ l t y va lab. refl;
  forward = omega arith;
}

pub Grown-trans :
    {root : ℕ} {label : Labels} {b : Boot} {label₁ : Labels} {b₁ : Boot} {label₂ : Labels}
    {b₂ : Boot}
    → Grown root label b label₁ b₁
    → Grown root label₁ b₁ label₂ b₂
    → Grown root label b label₂ b₂
Grown-trans g h = record {
  tree = h.tree;
  extends = λ t q lab. h.extends t q (g.extends t q lab);
  kept = λ t q i lab hi ne.
      let e = g.kept t q i lab hi ne in
      h.kept t q i (g.extends t q lab) hi (λ z. ne (sym e ∙ z)) ∙ e;
  view = λ l t y va lab. h.view l t y va (g.extends t _ lab) ∙ g.view l t y va lab;
  forward = omega (arith, g.forward, h.forward);
}

-- The words change above the cursor only, where there are no tables.
module _ (root : ℕ) (label : Labels) (b b' : Boot) (tree : IsTree root label b)
    (same : (a : ℕ) → a < b.cursor.curr_avail → b'.word a ≡ b.word a)
    (forward : b.cursor.curr_avail ≤ b'.cursor.curr_avail) where
  same_entry :
      (t : ℕ) (q : Label) (i : ℕ)
      → label t ≡ some q
      → i < 512
      → b'.word (slot t i) ≡ b.word (slot t i)
  same_entry t q i lab hi = let there = tree.placed t q lab in same (slot t i) (omega arith)

  same_view :
      (l t y va : ℕ) → label t ≡ some (table l y) → lookup l t va b'.word ≡ lookup l t va b.word
  unfolding lookup
  same_view zero t y va lab = same_entry t _ _ lab (index-lt zero va)
  same_view (suc l) t y va lab =
      let e = same_entry t _ _ lab (index-lt (suc l) va) in
      elim (Bool-cases (b.word (slot t (index (suc l) va)) == 0)) [
        | inl none_there ↦
            let z : b.word (slot t (index (suc l) va)) ≡ 0 = ground arith in
            lookup-missing l t va b'.word (e ∙ z) ∙ sym (lookup-missing l t va b.word z)
        | inr some_there ↦
            let ne : b.word (slot t (index (suc l) va)) ≢ 0 = ground arith in
            lookup-step l t va _ b'.word e ne
            ∙ same_view l _ _ va (tree.child t l y _ lab (index-lt (suc l) va) ne)
            ∙ sym (lookup-step l t va _ b.word refl ne)
      ]

  pub Grown-same : Grown root label b label b'
  Grown-same = record {
    tree = record {
      top = tree.top;
      child = λ t l y i lab hi ne.
          let e = same_entry t _ i lab hi in
          ap (λ (n : ℕ). label (target n)) e ∙ tree.child t l y i lab hi (λ z. ne (e ∙ z));
      placed = λ t q lab. let there = tree.placed t q lab in (there.0, omega arith);
    };
    extends = λ t q lab. lab;
    kept = λ t q i lab hi ne. same_entry t q i lab hi;
    view = same_view;
    forward = forward;
  }
