-- ===== src/Bits/Digit.antt =====
-- The bit operations by their lowest digit, with the fuel of their definition gone.
use Prim.Native.Nat.{
  min, max, differ, digits, bitwise, bit_and-bitwise, bit_or-bitwise, bit_xor-bitwise,
}
use closure_os.Base.{
  ℕ, zero, suc, ◌+◌, ◌*◌, ◌/◌, ◌%◌, ◌≤◌, ◌<◌, bit_and, bit_or, bit_xor, ◌≡◌, refl, arith,
}

module _ (z : ℕ → ℕ) (f : ℕ → ℕ → ℕ) where
  -- Any two amounts of fuel that cover the first number give one result.
  fuel_irrelevant : (n m a b : ℕ) → a ≤ n → a ≤ m → digits z f n a b ≡ digits z f m a b
  fuel_irrelevant zero zero a b hn hm = refl
  fuel_irrelevant (suc n) zero zero b hn hm = refl
  fuel_irrelevant (suc n) zero (suc a) b hn hm = absurd (omega arith)
  fuel_irrelevant zero (suc m) zero b hn hm = refl
  fuel_irrelevant zero (suc m) (suc a) b hn hm = absurd (omega arith)
  fuel_irrelevant (suc n) (suc m) zero b hn hm = refl
  fuel_irrelevant (suc n) (suc m) (suc a) b hn hm =
      omega (arith, fuel_irrelevant n m (suc a / 2) (b / 2) (omega arith) (omega arith))

  first_digit :
      (a b : ℕ)
      → bitwise z f (suc a) b ≡ bitwise z f (suc a / 2) (b / 2) * 2 + f (suc a % 2) (b % 2)
  first_digit a b =
      omega (arith, fuel_irrelevant a (suc a / 2) (suc a / 2) (b / 2) (omega arith) (omega arith))

pub bit_and_digit : (a b : ℕ) → bit_and a b ≡ bit_and (a / 2) (b / 2) * 2 + min (a % 2) (b % 2)
bit_and_digit zero b = simp bit_and-bitwise (omega arith)
bit_and_digit (suc a) b = simp bit_and-bitwise (first_digit (λ y. 0) min a b)

pub bit_or_digit : (a b : ℕ) → bit_or a b ≡ bit_or (a / 2) (b / 2) * 2 + max (a % 2) (b % 2)
bit_or_digit zero b = simp bit_or-bitwise (omega arith)
bit_or_digit (suc a) b = simp bit_or-bitwise (first_digit (λ y. y) max a b)

differ-mod_two : (x y : ℕ) → x < 2 → y < 2 → differ x y ≡ (x + y) % 2
differ-mod_two zero zero hx hy = refl
differ-mod_two zero (suc zero) hx hy = refl
differ-mod_two zero (suc (suc y)) hx hy = absurd (omega arith)
differ-mod_two (suc zero) zero hx hy = refl
differ-mod_two (suc zero) (suc zero) hx hy = refl
differ-mod_two (suc zero) (suc (suc y)) hx hy = absurd (omega arith)
differ-mod_two (suc (suc x)) y hx hy = absurd (omega arith)

pub bit_xor_digit : (a b : ℕ) → bit_xor a b ≡ bit_xor (a / 2) (b / 2) * 2 + (a % 2 + b % 2) % 2
bit_xor_digit zero b = simp bit_xor-bitwise (omega arith)
bit_xor_digit (suc a) b = simp bit_xor-bitwise (
    omega (
      arith,
      first_digit (λ y. y) differ a b,
      differ-mod_two (suc a % 2) (b % 2) (omega arith) (omega arith),
    ))
