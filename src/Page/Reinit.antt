-- ===== src/Page/Reinit.antt =====
-- What `PagePool::__reinit_page` leaves in the page database.
use closure_os.Base.{
  ℕ, zero, suc, ◌+◌, ◌%◌, ◌^◌, ◌≡◌, Bool, true, false, none, ◌==◌, ltb, leb, ◌&&◌, if◌then◌else◌,
  ◌∙◌, arith,
}
use closure_os.Atomic.{minus_one}
use closure_os.Kernel.{Page}
use closure_os.Page.{reinit_one, reinit_loop, reinit_page}
use native.Mathlib.Nat.{one-le-pow}

-- A page behind a round of the loop.
abbrev fresh : (order : ℕ) → Bool → Page → Page
fresh order free q = record q {
  is_free = free;
  order = order % 16;
  freelist = 0;
  kc = none;
  is_head = false;
}

abbrev counted : Page → Page
counted q = record q { ref_count = minus_one; map_count = minus_one }

-- What the rounds for the pages `p + i` to `p + i + n - 1` make of page `j`.
abbrev looped : (n p i order : ℕ) → Bool → (ℕ → Page) → ℕ → Page
looped n p i order free page j =
    let q = (if leb (p + i) j && ltb j (p + i + n) then fresh order free (page j) else page j) in
    if j == p && ltb 0 n then counted q else q

reinit_loop_lem :
    (n p i order : ℕ) (free : Bool) (page : ℕ → Page) (j : ℕ)
    → reinit_loop n p i order free page j ≡ looped n p i order free page j
unfolding reinit_loop
reinit_loop_lem zero p i order free page j = ground arith
reinit_loop_lem (suc n) p i order free page j =
    reinit_loop_lem n p (i + 1) order free (reinit_one p i order free page) j ∙ ground arith

-- A block's pages take the block's order and state; only the first is a head, and only its counts
-- are reset. All other pages stay as they are.
pub reinit_page_lem :
    (p order : ℕ) (free : Bool) (page : ℕ → Page) (j : ℕ)
    → reinit_page p order free page j ≡ (
        if leb p j && ltb j (p + 2 ^ order)
        then (if j == p
            then record (counted (fresh order free (page j))) { is_head = true }
            else fresh order free (page j))
        else page j)
unfolding reinit_page
reinit_page_lem p order free page j = ground (
  arith,
  one-le-pow order 2,
  reinit_loop_lem (2 ^ order) p 0 order free page j,
  reinit_loop_lem (2 ^ order) p 0 order free page p,
)
