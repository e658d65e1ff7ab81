-- ===== src/Bits.antt =====
-- Laws of `&`, `|` and `^` on words, for the masks and toggles that the memory manager uses:
-- low masks, high masks (`PAGE_MASK`, the mask of `get_head_page`) and one flipped bit.
mod Digit
use Digit.{bit_and_digit, bit_or_digit, bit_xor_digit}
use Prim.Native.Nat.{min, max, bit_and-bitwise, bit_or-bitwise}
use native.Mathlib.Nat.{pow-suc, one-le-pow}
use closure_os.Base.{
  ℕ, zero, suc, ◌+◌, ◌-◌, ◌*◌, ◌/◌, ◌%◌, ◌^◌, ◌≤◌, ◌<◌, bit_and, bit_or, bit_xor, ◌≡◌, refl, sym,
  ap, ◌∙◌, subst, arith,
}

double : (q k : ℕ) → q * 2 ^ suc k ≡ 2 * (q * 2 ^ k)
double q k = omega (arith, ap (λ (t : ℕ). q * t) (pow-suc 2 k))

-- An operation that works digit by digit works on the two halves of a word apart.
module _ (op digit : ℕ → ℕ → ℕ)
    (by_digit : (a b : ℕ) → op a b ≡ op (a / 2) (b / 2) * 2 + digit (a % 2) (b % 2))
    (at_zero : op 0 0 ≡ 0) where
  halves :
      (k q r m s : ℕ)
      → r < 2 ^ k
      → s < 2 ^ k
      → op (q * 2 ^ k + r) (m * 2 ^ k + s) ≡ op q m * 2 ^ k + op r s
  halves zero q r m s hr hs = ground (arith, at_zero)
  halves (suc k) q r m s hr hs = ground (
    arith,
    by_digit (q * 2 ^ suc k + r) (m * 2 ^ suc k + s),
    by_digit r s,
    double q k,
    double m k,
    double (op q m) k,
    halves k q (r / 2) m (s / 2),
  )

bit_and_halves :
    (k q r m s : ℕ)
    → r < 2 ^ k
    → s < 2 ^ k
    → bit_and (q * 2 ^ k + r) (m * 2 ^ k + s) ≡ bit_and q m * 2 ^ k + bit_and r s
bit_and_halves = halves bit_and (λ a b. min a b) bit_and_digit refl

bit_or_halves :
    (k q r m s : ℕ)
    → r < 2 ^ k
    → s < 2 ^ k
    → bit_or (q * 2 ^ k + r) (m * 2 ^ k + s) ≡ bit_or q m * 2 ^ k + bit_or r s
bit_or_halves = halves bit_or (λ a b. max a b) bit_or_digit refl

bit_xor_halves :
    (k q r m s : ℕ)
    → r < 2 ^ k
    → s < 2 ^ k
    → bit_xor (q * 2 ^ k + r) (m * 2 ^ k + s) ≡ bit_xor q m * 2 ^ k + bit_xor r s
bit_xor_halves = halves bit_xor (λ a b. (a + b) % 2) bit_xor_digit refl

-- Zero as the second operand, by the digits of the first (`k` bounds their number).
and-zero_below : (k a : ℕ) → a < 2 ^ k → bit_and a 0 ≡ 0
and-zero_below zero a h = ground arith
and-zero_below (suc k) a h =
    ground (arith, pow-suc 2 k, bit_and_digit a 0, and-zero_below k (a / 2))

or-zero_below : (k a : ℕ) → a < 2 ^ k → bit_or a 0 ≡ a
or-zero_below zero a h = ground arith
or-zero_below (suc k) a h = ground (arith, pow-suc 2 k, bit_or_digit a 0, or-zero_below k (a / 2))

xor-zero_below : (k a : ℕ) → a < 2 ^ k → bit_xor a 0 ≡ a
xor-zero_below zero a h = ground arith
xor-zero_below (suc k) a h =
    ground (arith, pow-suc 2 k, bit_xor_digit a 0, xor-zero_below k (a / 2))

lt-pow : (a : ℕ) → a < 2 ^ a
lt-pow zero = omega arith
lt-pow (suc a) = omega (arith, pow-suc 2 a, lt-pow a)

bit_and-zero : (a : ℕ) → bit_and a 0 ≡ 0
bit_and-zero a = and-zero_below a a (lt-pow a)

bit_or-zero : (a : ℕ) → bit_or a 0 ≡ a
bit_or-zero a = or-zero_below a a (lt-pow a)

bit_xor-zero : (a : ℕ) → bit_xor a 0 ≡ a
bit_xor-zero a = xor-zero_below a a (lt-pow a)

zero-bit_and : (b : ℕ) → bit_and 0 b ≡ 0
zero-bit_and b = simp bit_and-bitwise

zero-bit_or : (b : ℕ) → bit_or 0 b ≡ b
zero-bit_or b = simp bit_or-bitwise

-- A word below `2 ^ k` under the mask of `k` ones.
bit_and-ones : (k r : ℕ) → r < 2 ^ k → bit_and r (2 ^ k - 1) ≡ r
bit_and-ones zero r h = ground arith
bit_and-ones (suc k) r h =
    ground
      (arith, pow-suc 2 k, one-le-pow k 2, bit_and_digit r (2 ^ suc k - 1), bit_and-ones k (r / 2))

-- The remainder by `2 ^ k`, and the whole number as quotient and remainder.
split_at : (k a : ℕ) → (a ≡ a / 2 ^ k * 2 ^ k + a % 2 ^ k) × (a % 2 ^ k < 2 ^ k)
split_at k a = ground (arith, one-le-pow k 2)

low_part : (k q r : ℕ) → r < 2 ^ k → bit_and (q * 2 ^ k + r) (2 ^ k - 1) ≡ r
low_part k q r h =
    ground
      (arith, one-le-pow k 2, bit_and_halves k q r 0 (2 ^ k - 1), bit_and-zero q, bit_and-ones k r)

-- `x & (2 ^ k - 1)` keeps the low `k` bits.
pub bit_and_low : (k x : ℕ) → bit_and x (2 ^ k - 1) ≡ x % 2 ^ k
bit_and_low k x = ground (arith, split_at k x, low_part k (x / 2 ^ k) (x % 2 ^ k))

pub pow-add : (j k : ℕ) → 2 ^ (j + k) ≡ 2 ^ j * 2 ^ k
pow-add zero k = ground arith
pow-add (suc j) k =
    let e : suc j + k ≡ suc (j + k) = omega arith in
    let scaled : 2 ^ suc j * 2 ^ k ≡ 2 ^ j * 2 * 2 ^ k = ap (λ (t : ℕ). t * 2 ^ k) (pow-suc 2 j) in
    rw e (omega (arith, pow-suc 2 (j + k), pow-add j k))

-- The same with the exponent's sum as an equation.
pub pow-split : (j k n : ℕ) → j + k ≡ n → 2 ^ n ≡ 2 ^ j * 2 ^ k
pow-split j k n e = rw (← e) (pow-add j k)

high_part :
    (j k q r : ℕ)
    → r < 2 ^ k
    → q < 2 ^ j
    → bit_and (q * 2 ^ k + r) ((2 ^ j - 1) * 2 ^ k) ≡ q * 2 ^ k
high_part j k q r hr hq =
    ground
      (arith, bit_and_halves k q r (2 ^ j - 1) 0, bit_and-zero r, bit_and-ones j q, one-le-pow k 2)

pred-mul : (a b : ℕ) → (a - 1) * b ≡ a * b - b
pred-mul zero b = omega arith
pred-mul (suc a) b = let e : suc a - 1 ≡ a = omega arith in rw e (omega arith)

high_mask : (j k : ℕ) → 2 ^ (j + k) - 2 ^ k ≡ (2 ^ j - 1) * 2 ^ k
high_mask j k = omega (arith, pow-add j k, pred-mul (2 ^ j) (2 ^ k))

quotient-lt : (j k x : ℕ) → x < 2 ^ (j + k) → x / 2 ^ k < 2 ^ j
quotient-lt j k x h = grind (arith, pow-add j k, split_at k x)

-- On `j + k` bits, `x & ~(2 ^ k - 1)` clears the low `k` bits.
pub bit_and_high : (j k x : ℕ) → x < 2 ^ (j + k) → bit_and x (2 ^ (j + k) - 2 ^ k) ≡ x - x % 2 ^ k
bit_and_high j k x h = rw (high_mask j k) (
    subst (λ (t : ℕ). bit_and t ((2 ^ j - 1) * 2 ^ k) ≡ x - x % 2 ^ k) (sym (split_at k x).0)
      (high_part j k (x / 2 ^ k) (x % 2 ^ k) (split_at k x).1 (quotient-lt j k x h)
        ∙ omega (arith, split_at k x)))

-- `x ^ (1 << k)` of a multiple of `2 ^ k` goes to the other half of the pair.
pub bit_xor_pair :
    (k n : ℕ)
    → (bit_xor (2 * n * 2 ^ k) (2 ^ k) ≡ (2 * n + 1) * 2 ^ k)
      × (bit_xor ((2 * n + 1) * 2 ^ k) (2 ^ k) ≡ 2 * n * 2 ^ k)
bit_xor_pair k n = (
  ground (
    arith,
    one-le-pow k 2,
    bit_xor_halves k (2 * n) 0 1 0,
    bit_xor_digit (2 * n) 1,
    bit_xor-zero n,
  ),
  ground (
    arith,
    one-le-pow k 2,
    bit_xor_halves k (2 * n + 1) 0 1 0,
    bit_xor_digit (2 * n + 1) 1,
    bit_xor-zero n,
  ),
)

-- `|` of disjoint fields is their sum.
pub bit_or_fields : (k q r : ℕ) → r < 2 ^ k → bit_or (q * 2 ^ k) r ≡ q * 2 ^ k + r
bit_or_fields k q r h =
    ground (arith, one-le-pow k 2, bit_or_halves k q 0 0 r, bit_or-zero q, zero-bit_or r)
