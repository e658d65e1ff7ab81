-- ===== src/Runtime/Constructors.antt =====
-- The global constructors: `global_constructor_caller` of src/kernel/main.cpp.
use closure_os.Base.{
  ℕ, zero, suc, ◌+◌, ◌<◌, ◌≡◌, ◌≢◌, refl, sym, ap, subst, ◌∙◌, false, List, [], ◌∷◌, ◌==◌,
  if◌then◌else◌, ◌⊎◌, inl, inr, arith,
}
use closure_os.Kernel.{Cmd, pure, ◌>>=◌}
use closure_os.Runtime.{call_constructors, global_constructor_caller}

-- The array from entry `i` on holds the constructors, with a null pointer or its end behind them.
abbrev pub IsInitArray : (init_array : ℕ → ℕ) → (nr i : ℕ) → List ℕ → Type 0
IsInitArray init_array nr i [] = (i ≡ nr) ⊎ ((i < nr) × (init_array i ≡ 0))
IsInitArray init_array nr i (f ∷ fs) =
    (i < nr) × (init_array i ≡ f) × (f ≢ 0) × IsInitArray init_array nr (suc i) fs

-- The constructors one after the other, up to the first error.
unfoldable pub run_constructors : (init : ℕ → Cmd ℕ) → List ℕ → Cmd ℕ
run_constructors init [] = pure 0
run_constructors init (f ∷ fs) =
    let rest = run_constructors init fs in
    init f >>= λ error. (if error == 0 then rest else pure error)

module _ (init : ℕ → Cmd ℕ) (init_array : ℕ → ℕ) where
  call_constructors_lem :
      (fs : List ℕ) (rounds i : ℕ)
      → IsInitArray init_array (i + rounds) i fs
      → call_constructors init rounds i init_array ≡ run_constructors init fs
  unfolding call_constructors run_constructors
  call_constructors_lem [] zero i at_end = refl
  call_constructors_lem [] (suc rounds) i (inl at_end) = absurd (omega arith)
  call_constructors_lem [] (suc rounds) i (inr (inside, null)) = rw null refl
  call_constructors_lem (f ∷ fs) zero i (inside, here, ne, rest) = absurd (omega arith)
  call_constructors_lem (f ∷ fs) (suc rounds) i (inside, here, ne, rest) =
      let present : (f == 0) ≡ false = ground arith in
      let e : i + suc rounds ≡ suc i + rounds = omega arith in
      let next : suc i ≡ i + 1 = omega arith in
      rw (here, present)
        (ap (λ (k : Cmd ℕ). init f >>= λ error. (if error == 0 then k else pure error))
          (ap (λ (j : ℕ). call_constructors init rounds j init_array) (sym next)
            ∙ call_constructors_lem fs rounds (suc i)
                (subst (λ (nr : ℕ). IsInitArray init_array nr (suc i) fs) e rest)))

  -- On an array of non-null constructors that ends at its last entry or at a null pointer,
  -- `global_constructor_caller` calls each of them once and in order, up to the first that does not
  -- return 0, and returns what that returned, or 0; it looks at nothing behind the null pointer.
  pub global_constructor_caller_lem :
      (fs : List ℕ) (nr : ℕ)
      → IsInitArray init_array nr 0 fs
      → global_constructor_caller init nr init_array ≡ run_constructors init fs
  unfolding global_constructor_caller
  global_constructor_caller_lem fs nr array =
      call_constructors_lem fs nr 0
        (subst (λ (n : ℕ). IsInitArray init_array n 0 fs) (omega arith) array)
