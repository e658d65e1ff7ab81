-- ===== src/Cache/Slice.antt =====
-- The free list that `__page_obj_slicing` threads through a block.
use closure_os.Base.{
  ℕ, zero, suc, ◌+◌, ◌*◌, ◌%◌, ◌^◌, ◌≤◌, ◌<◌, ◌≡◌, refl, sym, subst, List, [], ◌∷◌, All, arith,
}
use closure_os.Kernel.{update, update_self}
use closure_os.Cache.{slice_loop}

-- The words lead from `head` through the objects `xs` to null.
abbrev pub IsChain : (ℕ → ℕ) → ℕ → List ℕ → Type 0
IsChain words head [] = head ≡ 0
IsChain words head (x ∷ xs) = (head ≡ x) × (0 < x) × IsChain words (words x) xs

-- The first `n` objects of size `sz` from `base` on, the last one first.
abbrev pub objects : (base sz n : ℕ) → List ℕ
objects base sz zero = []
objects base sz (suc n) = (base + n * sz) ∷ objects base sz n

-- A write above all objects of a chain leaves it.
IsChain-frame :
    (words : ℕ → ℕ) (a v head : ℕ) (xs : List ℕ)
    → IsChain words head xs
    → All (λ x. x < a) xs
    → IsChain (update words a v) head xs
IsChain-frame words a v head [] c below = c
IsChain-frame words a v head (x ∷ xs) c below =
    let e : update words a v x ≡ words x = ground arith in
    (c.0, c.1, rw e (IsChain-frame words a v (words x) xs c.2 below.1))

objects-below :
    (base sz n m : ℕ) → 0 < sz → n ≤ m → All (λ x. x < base + m * sz) (objects base sz n)
objects-below base sz zero m pos le = tt
objects-below base sz (suc n) m pos le = (grind arith, objects-below base sz n m pos (omega arith))

slice_loop-IsChain :
    (n base sz i curr : ℕ) (words : ℕ → ℕ)
    → 0 < base
    → 0 < sz
    → base + (i + n) * sz < 2 ^ 64
    → IsChain words curr (objects base sz i)
    → let out = slice_loop n sz curr (base + i * sz) words in
      IsChain out.1 out.0 (objects base sz (n + i))
unfolding slice_loop
slice_loop-IsChain zero base sz i curr words hb hs fits c =
    let e : 0 + i ≡ i = omega arith in rw e c
slice_loop-IsChain (suc n) base sz i curr words hb hs fits c =
    let here : ℕ = base + i * sz in
    let words' : ℕ → ℕ = update words here curr in
    let room : base + suc i * sz < 2 ^ 64 = grind arith in
    let wraps_not : (here + sz) % 2 ^ 64 ≡ base + suc i * sz = omega arith in
    let count : suc n + i ≡ n + suc i = omega arith in
    let old =
      IsChain-frame words here curr curr (objects base sz i) c
        (objects-below base sz i i hs (omega arith)) in
    let linked : IsChain words' (words' here) (objects base sz i) =
      rw (update_self words here curr) old in
    let done =
      slice_loop-IsChain n base sz (suc i) here words' hb hs (grind arith)
        (refl, omega arith, linked) in
    subst
      (λ (next : ℕ).
        let out = slice_loop n sz here next words' in
        IsChain out.1 out.0 (objects base sz (suc n + i)))
      (sym wraps_not) (rw count done)

-- Slicing a block of `n` objects of a positive size, from a base other than null and to an end below
-- the top of the address space, gives a free list of all of its objects, each once, from the last to
-- the first.
pub slice_loop_lem :
    (n base sz : ℕ) (words : ℕ → ℕ)
    → 0 < base
    → 0 < sz
    → base + n * sz < 2 ^ 64
    → let out = slice_loop n sz 0 base words in IsChain out.1 out.0 (objects base sz n)
slice_loop_lem n base sz words hb hs fits =
    let e : base + 0 * sz ≡ base = omega arith in
    let e' : n + 0 ≡ n = omega arith in
    rw (e, e') at (slice_loop-IsChain n base sz 0 0 words hb hs (grind arith) refl)
