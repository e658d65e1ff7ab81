-- ===== src/PageTable/Next.antt =====
-- One level of the walk of `boot_mm_pgtable_map`, and the whole of it up to its last write.
use closure_os.Base.{
  ℕ, suc, ◌+◌, ◌-◌, ◌*◌, ◌/◌, ◌^◌, ◌≤◌, ◌<◌, ◌≡◌, ◌≢◌, refl, sym, ap, ◌∙◌, true, false, some, ◌==◌,
  Bool-cases, ◌⊎◌, inl, inr, arith,
}
use closure_os.BootMem.{
  BootInfo, Cursor, Result, page, halt, more, enomem, err_ptr, is_err_ptr, addr_is_in_used_range,
  boot_mm_page_alloc,
}
use closure_os.BootMem.Linear.{IsMap, IsCursor, IsExhausted}
use closure_os.BootMem.Search.{boot_mm_page_alloc_lem}
use closure_os.PageTable.{
  Boot, Outcome, ok, err, halted, unfinished, slot, write, fill_entry, next_table, and_then,
}
use closure_os.PageTable.Tree.{
  table, Labels, target, IsTree, Grown, Grown-refl, Grown-same, entry-eq, entry-target,
}
use closure_os.PageTable.Grow.{grown_word, labelled, at_entry, fill-Grown}

-- The allocator can be called: its cursor is in order, and there is fuel for all pages that are left.
pub record IsReady (info : BootInfo) (fuel : ℕ) (b : Boot) : Type 0 where
  pub in_order : IsCursor info b.cursor
  pub enough : (2 ^ 52 - b.cursor.curr_avail) / 4096 < fuel

pub IsReady-step :
    {info : BootInfo} {fuel : ℕ} {b b' : Boot}
    → IsReady info fuel b
    → b.cursor.curr_avail ≤ b'.cursor.curr_avail
    → IsCursor info b'.cursor
    → IsReady info fuel b'
IsReady-step r le good = record { in_order = good; enough = ground (arith, r.enough) }

-- What a step that makes tables leaves, with its answer.
pub record Grows (info : BootInfo) (fuel root : ℕ) (label : Labels) (b : Boot)
    (Answered : Labels → Boot → Type 0) : Type 0 where
  pub label' : Labels
  pub after : Boot
  pub grown : Grown root label b label' after
  pub ready : IsReady info fuel after
  pub answer : Answered label' after

-- The step fails for want of memory.
abbrev pub Fails : {A : Type 0} → BootInfo → Outcome A → Boot → Type 0
Fails info run after = (run ≡ err enomem after) × IsExhausted info after.cursor.next_entry_idx

-- The step finds the table of level `l` for `path`, and entry `entry` leads to it.
abbrev pub Leads : (l path entry : ℕ) → Outcome ℕ → Labels → Boot → Type 0
Leads l path entry run label' after =
    (t' : ℕ) × (run ≡ ok t' after)
    × (label' t' ≡ some (table l path))
    × (after.word entry ≢ 0)
    × (target (after.word entry) ≡ t')

module _ (info : BootInfo) (map : IsMap info)
    (no_err : addr_is_in_used_range info (err_ptr enomem) ≡ false) (fuel root : ℕ) (label : Labels)
    (b : Boot) (tree : IsTree root label b) (ready : IsReady info fuel b) (t l y i : ℕ)
    (here : label t ≡ some (table (suc l) y)) (small : i < 512) where
  abbrev Answered : Labels → Boot → Type 0
  Answered label' after =
      Fails info (next_table fuel info t i b) after
      ⊎ Leads l (y * 512 + i) (slot t i) (next_table fuel info t i b) label' after

  present : b.word (slot t i) ≢ 0 → Grows info fuel root label b Answered
  unfolding next_table
  present ne =
      let test : (b.word (slot t i) == 0) ≡ false = ground arith in
      record {
        label' = label;
        after = b;
        grown = Grown-refl root label b tree;
        ready = ready;
        answer =
            inr (
              target (b.word (slot t i)),
              rw test refl,
              tree.child t l y i here small ne,
              ne,
              refl,
            );
      }

  found : Boot → Outcome ℕ
  found b' = ok (target (b'.word (slot t i))) b'

  next_table-empty :
      (res : ℕ) (c : Cursor)
      → b.word (slot t i) ≡ 0
      → boot_mm_page_alloc fuel info b.cursor ≡ page res c
      → next_table fuel info t i b
        ≡ and_then (fill_entry (slot t i) res (record b { cursor = c })) (λ _. found)
  unfolding next_table found
  next_table-empty res c e run =
      let test : (b.word (slot t i) == 0) ≡ true = ground arith in
      rw test (
        ap
          (λ (r : Result).
            and_then
              (and_then
                (elim r [
                  | page res c ↦ ok res (record b { cursor = c })
                  | halt ↦ halted
                  | more ↦ unfinished
                ])
                (fill_entry (slot t i)))
              (λ _. found))
          run)

  fill_entry-page :
      (res : ℕ) (c : Cursor)
      → res < 2 ^ 52
      → fill_entry (slot t i) res (record b { cursor = c })
        ≡ ok tt (record { word = grown_word (slot t i) res b.word; cursor = c })
  unfolding fill_entry
  fill_entry-page res c low =
      let no_error : is_err_ptr res ≡ false = ground arith in rw no_error refl

  fill_entry-error :
      (c : Cursor)
      → fill_entry (slot t i) (err_ptr enomem) (record b { cursor = c })
        ≡ err enomem (record {
          word = write (slot t i) 0 (write (slot t i) (err_ptr enomem) b.word);
          cursor = c;
        })
  unfolding fill_entry
  fill_entry-error c = refl

  at_failure : Cursor → Boot
  at_failure c = record {
    word = write (slot t i) 0 (write (slot t i) (err_ptr enomem) b.word);
    cursor = c;
  }

  missing : b.word (slot t i) ≡ 0 → Grows info fuel root label b Answered
  unfolding at_failure found
  missing e =
      let (res, c, run, good, answer) =
        boot_mm_page_alloc_lem fuel info b.cursor map ready.in_order no_err ready.enough in
      elim answer [
        | inl (is_err, rest, forward) ↦ record {
          label' = label;
          after = at_failure c;
          grown = Grown-same root label b (at_failure c) tree (λ a below. ground arith) forward;
          ready = IsReady-step ready forward good;
          answer = inl (
            next_table-empty (err_ptr enomem) c e (run ∙ ap (λ (r : ℕ). page r c) is_err)
                ∙ ap (λ (r : Outcome Unit). and_then r (λ _. found)) (fill_entry-error c),
            rest,
          );
        }
        | inr (free, al, fresh, next, there) ↦
            let inside = map.0 there.0 there.2 in
            let low : res < 2 ^ 52 = omega (arith, there.4) in
            let grown = fill-Grown root label b tree t l y i here small e res c al fresh next low in
            let entry = at_entry root label b tree t l y i here small e res c al fresh next low in
            let leads_to = ap target entry ∙ entry-target res al low in
            record {
              label' = labelled res (table l (y * 512 + i)) label;
              after = record { word = grown_word (slot t i) res b.word; cursor = c };
              grown = grown;
              ready = IsReady-step ready (omega arith) good;
              answer = inr (
                res,
                next_table-empty res c e run
                    ∙ ap (λ (r : Outcome Unit). and_then r (λ _. found)) (fill_entry-page res c low)
                    ∙ ap
                        (λ (p : ℕ).
                          ok p (record { word = grown_word (slot t i) res b.word; cursor = c }))
                        leads_to,
                ground arith,
                (λ z. absurd (omega (arith, sym (entry ∙ entry-eq res al) ∙ z))),
                leads_to,
              );
            }
      ]

  pub next_table_lem : Grows info fuel root label b Answered
  next_table_lem = elim (Bool-cases (b.word (slot t i) == 0)) [
    | inl empty ↦ missing (ground arith)
    | inr full ↦ present (ground arith)
  ]
