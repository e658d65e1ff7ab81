-- ===== src/HeapPool/Choice.antt =====
-- Which cache `KHeapPool::__malloc_caches` takes an object from.
use closure_os.Base.{
  ℕ, zero, suc, ◌+◌, ◌≤◌, ◌<◌, ◌≡◌, refl, sym, subst, true, false, leb, Bool-cases, inl, inr,
  ℕ_discrete, arith,
}
use closure_os.Kernel.{Kernel, ok}
use closure_os.Cache.{not_null}
use closure_os.Cache
use closure_os.HeapPool.{KHeapPool, malloc_caches, malloc_pools, malloc}

-- Slot `j` is the first from `i` on whose objects hold `size` bytes.
pub record IsChoice (h : KHeapPool) (size i last j : ℕ) : Type 0 where
  pub from : i ≤ j
  pub inside : j ≤ last
  pub holds : size ≤ h.cache_obj_sizes j
  pub smaller : (l : ℕ) → i ≤ l → l < j → h.cache_obj_sizes l < size

-- An object that the chosen cache gives is the result.
abbrev pub Gives : (rounds i fuel : ℕ) → KHeapPool → (size j : ℕ) → Kernel → Type 0
Gives rounds i fuel h size j s =
    (obj : ℕ) (after : Kernel)
    → 0 < obj
    → Cache.malloc fuel (h.caches j) s ≡ ok obj after
    → malloc_caches rounds i fuel h size s ≡ ok obj after

choose_here :
    (rounds i last fuel : ℕ) (h : KHeapPool) (size : ℕ) (s : Kernel)
    → i ≤ last
    → leb size (h.cache_obj_sizes i) ≡ true
    → (j : ℕ) × IsChoice h size i last j × Gives (suc rounds) i fuel h size j s
unfolding malloc_caches
choose_here rounds i last fuel h size s le here = (
  i,
  record {
    from = omega arith;
    inside = le;
    holds = ground arith;
    smaller = λ l a b. absurd (omega arith);
  },
  (λ obj after pos run.
      let some_obj : not_null obj ≡ true = ground arith in rw (here, run, some_obj) refl),
)

malloc_caches_lem :
    (rounds i last fuel : ℕ) (h : KHeapPool) (size : ℕ) (s : Kernel)
    → i + rounds ≡ last
    → size ≤ h.cache_obj_sizes last
    → (j : ℕ) × IsChoice h size i last j × Gives (suc rounds) i fuel h size j s
unfolding malloc_caches
malloc_caches_lem zero i last fuel h size s e fits =
    let here : i ≡ last = omega arith in
    let room : size ≤ h.cache_obj_sizes i = rw here fits in
    choose_here zero i last fuel h size s (omega arith) (ground arith)
malloc_caches_lem (suc rounds) i last fuel h size s e fits =
    elim (Bool-cases (leb size (h.cache_obj_sizes i))) [
      | inl here ↦ choose_here (suc rounds) i last fuel h size s (omega arith) here
      | inr not_here ↦
          let (j, choice, gives) =
            malloc_caches_lem rounds (i + 1) last fuel h size s (omega arith) fits in
          (
            j,
            record {
              from = omega (arith, choice.from);
              inside = choice.inside;
              holds = choice.holds;
              smaller = λ l a b. elim (ℕ_discrete l i) [
                | yes same ↦ rw same (ground arith)
                | no other ↦ choice.smaller l (omega arith) b
              ];
            },
            (λ obj after pos run. rw not_here (gives obj after pos run)),
          )
    ]

-- With caches whose last one has objects of `size` bytes at least, the smallest suitable cache in the
-- order of the slots is asked first, and an object that it gives is what `Malloc` returns.
pub malloc-IsChoice :
    (fuel : ℕ) (h : KHeapPool) (size : ℕ) (s : Kernel) (last : ℕ)
    → h.cache_nr ≡ suc last
    → size ≤ h.cache_obj_sizes last
    → (j : ℕ) × IsChoice h size 0 last j
      × ((obj : ℕ) (after : Kernel)
          → 0 < obj
          → Cache.malloc fuel (h.caches j) s ≡ ok obj after
          → malloc fuel h size s ≡ ok obj after)
unfolding malloc
malloc-IsChoice fuel h size s last e fits =
    let (j, choice, gives) = malloc_caches_lem last 0 last fuel h size s (omega arith) fits in
    (
      j,
      choice,
      (λ obj after pos run.
          let some_obj : not_null obj ≡ true = ground arith in
          let chosen : malloc_caches h.cache_nr 0 fuel h size s ≡ ok obj after =
            subst (λ (n : ℕ). malloc_caches n 0 fuel h size s ≡ ok obj after) (sym e)
              (gives obj after pos run) in
          rw (chosen, some_obj) refl),
    )

malloc_caches-too_large :
    (rounds i fuel : ℕ) (h : KHeapPool) (size : ℕ) (s : Kernel)
    → ((j : ℕ) → i ≤ j → j < i + rounds → h.cache_obj_sizes j < size)
    → malloc_caches rounds i fuel h size s ≡ ok 0 s
unfolding malloc_caches
malloc_caches-too_large zero i fuel h size s small = refl
malloc_caches-too_large (suc rounds) i fuel h size s small =
    let less = small i (omega arith) (omega arith) in
    let not_here : leb size (h.cache_obj_sizes i) ≡ false = ground arith in
    rw not_here (
      malloc_caches-too_large rounds (i + 1) fuel h size s
        (λ j from below. small j (omega arith) (omega arith)))

-- A request that no cache holds goes to the page pools.
pub malloc-malloc_pools :
    (fuel : ℕ) (h : KHeapPool) (size : ℕ) (s : Kernel)
    → ((j : ℕ) → j < h.cache_nr → h.cache_obj_sizes j < size)
    → malloc fuel h size s ≡ malloc_pools h size s
unfolding malloc
malloc-malloc_pools fuel h size s small =
    rw (malloc_caches-too_large h.cache_nr 0 fuel h size s (λ j from below. small j (omega arith)))
      refl
