-- ===== src/PageTable/Runs.antt =====
-- Runs of the boot stage that end, and what they leave.
use closure_os.Base.{
  ℕ, ◌+◌, ◌%◌, ◌^◌, ◌≤◌, ◌<◌, ◌≡◌, refl, ◌∙◌, bit_or, Bool, true, false, none, some, ◌==◌,
  if◌then◌else◌, ◌⊎◌, inl, inr, arith,
}
use closure_os.BootMem.{BootInfo, enomem, err_ptr, is_err_ptr, addr_is_in_used_range}
use closure_os.BootMem.Linear.{IsMap, IsExhausted}
use closure_os.BootMem.Search.{boot_mm_page_alloc_lem}
use closure_os.PageTable.{
  Boot, Outcome, ok, err, halted, unfinished, Run, and_then, alloc, clear_page, boot_mm_pgtable_map,
}
use closure_os.PageTable.Tree.{table, Grown-same}
use closure_os.PageTable.Next.{IsReady, IsReady-step}
use closure_os.PageTable.Map.{IsTables, ReadsSame, ReadsUpdated, boot_mm_pgtable_map_lem}
use closure_os.PageTable.Init.{new_page, efault}

-- The run ends in a value with `Post`, or in an error with `Fail`; it neither halts nor lacks fuel.
unfoldable pub Runs :
    {A : Type 0} → (Post : A → Boot → Type 0) → (Fail : ℕ → Boot → Type 0) → Outcome A → Type 0
Runs Post Fail (ok a b) = Post a b
Runs Post Fail (err e b) = Fail e b
Runs Post Fail halted = ⊥
Runs Post Fail unfinished = ⊥

pub Runs-ok :
    {A : Type 0} (Post : A → Boot → Type 0) (Fail : ℕ → Boot → Type 0) (a : A) (b : Boot)
    → Post a b
    → Runs Post Fail (ok a b)
unfolding Runs
Runs-ok Post Fail a b p = p

pub Runs-err :
    {A : Type 0} (Post : A → Boot → Type 0) (Fail : ℕ → Boot → Type 0) (e : ℕ) (b : Boot)
    → Fail e b
    → Runs Post Fail (err e b)
unfolding Runs
Runs-err Post Fail e b p = p

pub Runs-bind :
    {A B : Type 0} {Post : A → Boot → Type 0} (Post' : B → Boot → Type 0) {Fail : ℕ → Boot → Type 0}
    (Fail' : ℕ → Boot → Type 0) (m : Outcome A) (f : A → Run B)
    → Runs Post Fail m
    → ((e : ℕ) (b : Boot) → Fail e b → Fail' e b)
    → ((a : A) (b : Boot) → Post a b → Runs Post' Fail' (f a b))
    → Runs Post' Fail' (and_then m f)
unfolding Runs
Runs-bind Post' Fail' (ok a b) f m weaken go = go a b m
Runs-bind Post' Fail' (err e b) f m weaken go = weaken e b m
Runs-bind Post' Fail' halted f m weaken go = m
Runs-bind Post' Fail' unfinished f m weaken go = m

pub Runs-weaken :
    {A : Type 0} {Post : A → Boot → Type 0} (Post' : A → Boot → Type 0) (Fail : ℕ → Boot → Type 0)
    (m : Outcome A)
    → Runs Post Fail m
    → ((a : A) (b : Boot) → Post a b → Post' a b)
    → Runs Post' Fail m
unfolding Runs
Runs-weaken Post' Fail (ok a b) m go = go a b m
Runs-weaken Post' Fail (err e b) m go = m
Runs-weaken Post' Fail halted m go = m
Runs-weaken Post' Fail unfinished m go = m

pub Runs-fail :
    {A : Type 0} (Post : A → Boot → Type 0) {Fail : ℕ → Boot → Type 0} (Fail' : ℕ → Boot → Type 0)
    (m : Outcome A)
    → Runs Post Fail m
    → ((e : ℕ) (b : Boot) → Fail e b → Fail' e b)
    → Runs Post Fail' m
unfolding Runs
Runs-fail Post Fail' (ok a b) m go = m
Runs-fail Post Fail' (err e b) m go = go e b m
Runs-fail Post Fail' halted m go = m
Runs-fail Post Fail' unfinished m go = m

-- The memory is exhausted; or a section is of no known type, where `unknown` says that there is one.
abbrev pub Failed : BootInfo → (unknown : Bool) → (e : ℕ) → Boot → Type 0
Failed info unknown e after =
    ((e ≡ enomem) × IsExhausted info after.cursor.next_entry_idx)
    ⊎ ((e ≡ efault) × (unknown ≡ true))

pub Failed-weaken :
    (info : BootInfo) (unknown unknown' : Bool)
    → (unknown ≡ true → unknown' ≡ true)
    → (e : ℕ) (b : Boot) → Failed info unknown e b
    → Failed info unknown' e b
Failed-weaken info unknown unknown' f e b (inl exhausted) = inl exhausted
Failed-weaken info unknown unknown' f e b (inr (is_efault, u)) = inr (is_efault, f u)

module _ (info : BootInfo) (map : IsMap info)
    (no_err : addr_is_in_used_range info (err_ptr enomem) ≡ false) (fuel : ℕ) (unknown : Bool) where
  -- What `new_page` leaves: a page above the cursor that is empty; below the cursor nothing changes.
  abbrev pub Cleared : Boot → (res : ℕ) → Boot → Type 0
  Cleared b res after =
      (res % 4096 ≡ 0)
      × (b.cursor.curr_avail ≤ res)
      × (after.cursor.curr_avail ≡ res + 4096)
      × (res < 2 ^ 52)
      × ((a : ℕ) → after.word a ≡ clear_page res b.word a)
      × IsReady info fuel after

  pub new_page-Runs :
      (b : Boot)
      → IsReady info fuel b
      → Runs (Cleared b) (Failed info unknown) (new_page fuel info b)
  unfolding Runs new_page alloc
  new_page-Runs b ready =
      let (res, c, run, good, answer) =
        boot_mm_page_alloc_lem fuel info b.cursor map ready.in_order no_err ready.enough in
      rw (Runs, run)
        (elim answer [
          | inl (is_err, rest, forward) ↦ rw is_err (inl (refl, rest))
          | inr (free, al, fresh, next, there) ↦
              let inside = map.0 there.0 there.2 in
              let low : res < 2 ^ 52 = omega (arith, there.4) in
              let no_error : is_err_ptr res ≡ false = ground arith in
              rw no_error (al, fresh, next, low, λ a. refl, IsReady-step ready (omega arith) good)
        ])

  -- A new page is outside the tables.
  pub Cleared-IsTables :
      (root : ℕ) (b : Boot) (res : ℕ) (after : Boot)
      → IsTables info fuel root b
      → Cleared b res after
      → IsTables info fuel root after × ReadsSame root b after
  Cleared-IsTables root b res after (label, tree, ready) (al, fresh, next, low, words, ready') =
      let grown =
        Grown-same root label b after tree (λ a below. words a ∙ ground arith) (omega arith) in
      ((label, grown.tree, ready'), λ va. grown.view 3 root 0 va tree.top)

  -- A new page is a table without entries.
  pub Cleared-root :
      (b : Boot) (root : ℕ) (after : Boot) → Cleared b root after → IsTables info fuel root after
  Cleared-root b root after (al, fresh, next, low, words, ready) =
      let label = λ (p : ℕ). if p == root then some (table 3 0) else none in
      (
        label,
        record {
          top = ground arith;
          child = λ t l y i lab hi ne. absurd (ne (words _ ∙ ground arith));
          placed = λ t q lab. ground arith;
        },
        ready,
      )

  pub map-Runs :
      (root va pa attr : ℕ) (b : Boot)
      → IsTables info fuel root b
      → Runs
          (λ _ after. IsTables info fuel root after × ReadsUpdated root va (bit_or pa attr) b after)
          (Failed info unknown)
          (boot_mm_pgtable_map fuel info root va pa attr b)
  unfolding Runs
  map-Runs root va pa attr b tables =
      let (after, good, forward, answer) =
        boot_mm_pgtable_map_lem info fuel root va pa attr b map no_err tables in
      elim answer [
        | inl (run, reads) ↦ rw run (good, reads)
        | inr ((run, none_left), same) ↦ rw run (inl (refl, none_left))
      ]

  -- A mapping with what comes behind it.
  pub map_then :
      {A : Type 0} (Post : A → Boot → Type 0) (root va pa attr : ℕ) (b : Boot)
      (f : Unit {0} → Run A)
      → IsTables info fuel root b
      → ((after : Boot)
          → IsTables info fuel root after
          → ReadsUpdated root va (bit_or pa attr) b after
          → Runs Post (Failed info unknown) (f tt after))
      → Runs Post
          (Failed info unknown)
          (and_then (boot_mm_pgtable_map fuel info root va pa attr b) f)
  map_then Post root va pa attr b f tables go =
      Runs-bind Post (Failed info unknown) _ f (map-Runs root va pa attr b tables)
        (λ e b' failed. failed) (λ _ after (good, reads). go after good reads)
