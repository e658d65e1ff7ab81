-- ===== src/HeapPool/Order.antt =====
-- The order of the block that serves a large request.
use closure_os.Base.{
  ℕ, zero, suc, ◌+◌, ◌*◌, ◌/◌, ◌^◌, ◌≤◌, ◌<◌, ◌≡◌, ◌⊎◌, inl, inr, refl, ap, Option, none, some, ltb,
  ltb→lt, if◌then◌else◌, Bool-cases, ◌∙◌, arith,
}
use closure_os.HeapPool.{order_loop, order_for}

abbrev Counted : (fuel size order : ℕ) → Type 0
Counted fuel size order =
    (n : ℕ) × (order_loop (suc fuel) size order ≡ some (order + n))
    × (size < 2 ^ n)
    × ((2 ^ n ≤ 2 * size) ⊎ (n ≡ 0))

order_loop-step :
    (fuel m order : ℕ) → Counted fuel (suc m / 2) (order + 1) → Counted (suc fuel) (suc m) order
unfolding order_loop
order_loop-step fuel m order (n, run, above, below) =
    let double : 2 ^ suc n ≡ 2 ^ n * 2 = omega arith in
    let twice : 2 ^ suc n ≤ 2 * suc m = elim below [
      | inl le ↦ omega arith
      | inr e ↦ omega (arith, ap (λ (i : ℕ). 2 ^ i) e)
    ] in
    let step : order_loop (suc (suc fuel)) (suc m) order
        ≡ order_loop (suc fuel) (suc m / 2) (order + 1) =
      ground arith in
    (suc n, step ∙ run ∙ ap some (omega arith), omega arith, inl twice)

-- With fuel for its bits, the loop counts the bits of `size`.
order_loop_lem : (fuel size order : ℕ) → size < 2 ^ fuel → Counted fuel size order
unfolding order_loop
order_loop_lem zero size order h = (0, ground arith, omega arith, inr refl)
order_loop_lem (suc fuel) zero order h = (0, ground arith, omega arith, inr refl)
order_loop_lem (suc fuel) (suc m) order h =
    let double : 2 ^ suc fuel ≡ 2 ^ fuel * 2 = omega arith in
    order_loop-step fuel m order (order_loop_lem fuel (suc m / 2) (order + 1) (omega arith))

abbrev Fits : ℕ → Type 0
Fits need =
    (o : ℕ) × (order_for need ≡ some o)
    × (need ≤ 2 ^ o * 4096)
    × ((2 ^ o * 4096 < 2 * need) ⊎ (o ≡ 0))

abbrev rounded : (n need : ℕ) → ℕ
rounded n need = if ltb (2 ^ n * 4096) need then n + 1 else n

order_for-rounded :
    (need n : ℕ) → order_loop 64 (need / 2 ^ 13) 0 ≡ some n → order_for need ≡ some (rounded n need)
unfolding order_for
order_for-rounded need n run =
    ap (λ (o : Option ℕ). elim o [ none ↦ none | some order ↦ some (rounded order need) ]) run

order_for-Fits : (need : ℕ) → 0 < need → Counted 63 (need / 2 ^ 13) 0 → Fits need
order_for-Fits need pos (n, run, above, below) =
    let run' : order_for need ≡ some (rounded n need) =
      order_for-rounded need n (run ∙ ap some (omega arith)) in
    let double : 2 ^ suc n ≡ 2 ^ n * 2 = omega arith in
    elim (Bool-cases (ltb (2 ^ n * 4096) need)) [
      | inl lt ↦
          let short : 2 ^ n * 4096 < need = ltb→lt _ _ lt in
          let next : rounded n need ≡ suc n = rw lt (omega arith) in
          (suc n, run' ∙ ap some next, omega arith, inl (omega arith))
      | inr ge ↦
          let enough : need ≤ 2 ^ n * 4096 = ground arith in
          let small : (2 ^ n * 4096 < 2 * need) ⊎ (n ≡ 0) = elim below [
            | inl le ↦ inl (omega arith)
            | inr e ↦ inr e
          ] in
          let stay : rounded n need ≡ n = rw ge refl in (n, run' ∙ ap some stay, enough, small)
    ]

-- A request of at least one byte and below 2 ^ 43 bytes gets the smallest block that holds it.
pub order_for_lem :
    (need : ℕ)
    → 0 < need
    → need < 2 ^ 43
    → (o : ℕ) × (order_for need ≡ some o)
      × (need ≤ 2 ^ o * 4096)
      × ((2 ^ o * 4096 < 2 * need) ⊎ (o ≡ 0))
order_for_lem need pos small =
    order_for-Fits need pos (order_loop_lem 63 (need / 2 ^ 13) 0 (omega arith))
