-- ===== src/Page/Convert.antt =====
-- Conversions between pages and addresses, the head of a block, and buddies.
use closure_os.Base.{
  ℕ, suc, ◌+◌, ◌-◌, ◌*◌, ◌/◌, ◌%◌, ◌^◌, ◌≤◌, ◌<◌, ◌≡◌, ◌⊎◌, inl, inr, ap, sym, ◌∙◌, bit_and, ◌==◌,
  dec_lt, arith,
}
use closure_os.Bits.{bit_and_high, bit_xor_pair, pow-add, pow-split}
use native.Mathlib.Nat.{one-le-pow, pow-suc}
use closure_os.Layout.{page_mask, word_not, pgdb_base}
use closure_os.Kernel.{Page}
use closure_os.Page.{page_to_virt, virt_to_page, get_head_page, get_page_buddy, page_address}

page_align_mask : (x : ℕ) → x < 2 ^ 64 → bit_and x page_mask ≡ x - x % 4096
page_align_mask x h = bit_and_high 52 12 x h

-- Every address inside a page below page 2 ^ 34, the end of the 64 TB direct map, leads back to that
-- page.
pub virt_to_page-page_to_virt :
    (p d : ℕ) → p < 2 ^ 34 → d < 4096 → virt_to_page (page_to_virt p + d) ≡ p
unfolding virt_to_page page_to_virt
virt_to_page-page_to_virt p d hp hd = ground (arith, page_align_mask (p * 4096 + d))

mod_of_parts : (q k r : ℕ) → r < k → (q * k + r) % k ≡ r
mod_of_parts q k r h = grind arith

base_parts : (o : ℕ) → o < 11 → pgdb_base ≡ pgdb_base / 2 ^ 16 * 2 ^ (10 - o) * (64 * 2 ^ o)
base_parts o h = omega (arith, pow-split (10 - o) o 10 (omega arith))

head_offset :
    (o p d : ℕ) → o < 11 → p % 2 ^ o ≡ 0 → d < 2 ^ o → page_address (p + d) % (64 * 2 ^ o) ≡ 64 * d
head_offset o p d ho al hd =
    let q = pgdb_base / 2 ^ 16 * 2 ^ (10 - o) + p / 2 ^ o in
    let parts : page_address (p + d) ≡ q * (64 * 2 ^ o) + 64 * d = grind (arith, base_parts o ho) in
    rw parts (mod_of_parts q (64 * 2 ^ o) (64 * d) (omega arith))

-- The mask of `get_head_page` takes a page of an aligned block to the block's first page.
head_address :
    (o p d : ℕ)
    → o < 11
    → p % 2 ^ o ≡ 0
    → d < 2 ^ o
    → p + d < 2 ^ 34
    → bit_and (page_address (p + d)) (word_not (64 * 2 ^ o - 1)) ≡ page_address p
head_address o p d ho al hd small =
    let k : ℕ = 6 + o in
    let whole : 2 ^ 64 ≡ 2 ^ (58 - o + k) =
      pow-split (58 - o) k 64 (omega arith) ∙ sym (pow-add (58 - o) k) in
    let block : 2 ^ k ≡ 64 * 2 ^ o = pow-add 6 o in
    let mask : word_not (64 * 2 ^ o - 1) ≡ 2 ^ (58 - o + k) - 2 ^ k =
      omega (arith, whole, block, one-le-pow o 2) in
    rw mask (
      bit_and_high (58 - o) k (page_address (p + d)) (omega (arith, whole))
      ∙ rw block (omega (arith, head_offset o p d ho al hd)))

-- In an aligned block of an order below 11, below page 2 ^ 34, a page that has the block's order and
-- is a head exactly if it is the first is taken to the first page by `get_head_page`.
pub get_head_page_lem :
    (page : ℕ → Page) (o p d : ℕ)
    → o < 11
    → p % 2 ^ o ≡ 0
    → d < 2 ^ o
    → p + d < 2 ^ 34
    → (page (p + d)).order ≡ o
    → (page (p + d)).is_head ≡ (d == 0)
    → get_head_page page (p + d) ≡ p
unfolding get_head_page
get_head_page_lem page o p d ho al hd small eo eh =
    ground (arith, head_address o p d ho al hd small)

-- The buddy of an aligned block of order `o` is the other half of the aligned block of order `o + 1`
-- around both.
pub get_page_buddy_lem :
    (o n : ℕ)
    → (get_page_buddy (2 * n * 2 ^ o) o ≡ (2 * n + 1) * 2 ^ o)
      × (get_page_buddy ((2 * n + 1) * 2 ^ o) o ≡ 2 * n * 2 ^ o)
unfolding get_page_buddy
get_page_buddy_lem o n = bit_xor_pair o n

buddy_up : (o n p : ℕ) → p ≡ 2 * n * 2 ^ o → get_page_buddy p o ≡ p + 2 ^ o
buddy_up o n p e = rw e ((get_page_buddy_lem o n).0 ∙ omega arith)

buddy_down : (o n p : ℕ) → p ≡ (2 * n + 1) * 2 ^ o → get_page_buddy p o ≡ p - 2 ^ o
buddy_down o n p e = rw e ((get_page_buddy_lem o n).1 ∙ omega arith)

-- The quotient and the remainder by a positive number.
divide : (p k : ℕ) → 0 < k → (p ≡ p / k * k + p % k) × (p % k < k)
divide p k h = grind arith

-- An aligned block's lower half has the upper half as its buddy.
pub get_page_buddy-upper : (o p : ℕ) → p % 2 ^ suc o ≡ 0 → get_page_buddy p o ≡ p + 2 ^ o
get_page_buddy-upper o p al =
    let n = p / 2 ^ suc o in
    let double : n * 2 ^ suc o ≡ n * (2 ^ o * 2) = ap (λ (t : ℕ). n * t) (pow-suc 2 o) in
    buddy_up o n p
      (omega (arith, double, divide p (2 ^ suc o) (one-le-pow (suc o) 2 (omega arith))))

-- The upper half has the lower one.
pub get_page_buddy-lower : (o p : ℕ) → p % 2 ^ suc o ≡ 2 ^ o → get_page_buddy p o ≡ p - 2 ^ o
get_page_buddy-lower o p al =
    let n = p / 2 ^ suc o in
    let double : n * 2 ^ suc o ≡ n * (2 ^ o * 2) = ap (λ (t : ℕ). n * t) (pow-suc 2 o) in
    buddy_down o n p
      (omega (arith, double, divide p (2 ^ suc o) (one-le-pow (suc o) 2 (omega arith))))

mod_at : (p q k r : ℕ) → p ≡ q * k + r → r < k → p % k ≡ r
mod_at p q k r e h = rw e (mod_of_parts q k r h)

mod_double : (p k : ℕ) → 0 < k → p % k ≡ 0 → (p % (k * 2) ≡ 0) ⊎ (p % (k * 2) ≡ k)
mod_double p k h al =
    let m = p / k in
    let n = m / 2 in
    let whole = divide p k h in
    elim (dec_lt (m % 2) 1) [
      | yes even ↦
          let e : m * k ≡ 2 * n * k = ap (λ (t : ℕ). t * k) (omega arith) in
          inl (mod_at p n (k * 2) 0 (omega (arith, whole, e)) (omega arith))
      | no odd ↦
          let e : m * k ≡ (2 * n + 1) * k = ap (λ (t : ℕ). t * k) (omega arith) in
          inr (mod_at p n (k * 2) k (omega (arith, whole, e)) (omega arith))
    ]

-- An aligned block is one of the two halves of a block of the next order.
pub aligned_cases : (o p : ℕ) → p % 2 ^ o ≡ 0 → (p % 2 ^ suc o ≡ 0) ⊎ (p % 2 ^ suc o ≡ 2 ^ o)
aligned_cases o p al = rw (pow-suc 2 o) (mod_double p (2 ^ o) (one-le-pow o 2 (omega arith)) al)

-- Both halves of an aligned block are aligned.
pub aligned_halves : (o p : ℕ) → p % 2 ^ suc o ≡ 0 → (p % 2 ^ o ≡ 0) × ((p + 2 ^ o) % 2 ^ o ≡ 0)
aligned_halves o p al =
    let k = 2 ^ o in
    let pos : 0 < k = one-le-pow o 2 (omega arith) in
    let whole = divide p (2 ^ suc o) (one-le-pow (suc o) 2 (omega arith)) in
    let n = p / 2 ^ suc o in
    let double : n * 2 ^ suc o ≡ n * (2 ^ o * 2) = ap (λ (t : ℕ). n * t) (pow-suc 2 o) in
    (
      mod_at p (2 * n) k 0 (omega (arith, double, whole)) pos,
      mod_at (p + k) (2 * n + 1) k 0 (omega (arith, double, whole)) pos,
    )

aligned_multiple : (o p : ℕ) → p % 2 ^ o ≡ 0 → p ≡ p / 2 ^ o * 2 ^ o
aligned_multiple o p al = omega (arith, divide p (2 ^ o) (one-le-pow o 2 (omega arith)))

mul_mono : (a b k : ℕ) → a ≤ b → a * k ≤ b * k
mul_mono a b k h = grind arith

lt-mul : (a b k : ℕ) → a * k < b * k → a * k + k ≤ b * k
lt-mul a b k h = elim (dec_lt a b) [
  | yes less ↦ omega (arith, mul_mono (suc a) b k less)
  | no more ↦ absurd (omega (arith, mul_mono b a k (omega arith)))
]

-- An aligned block that begins inside a larger aligned block ends inside it.
pub aligned_nested :
    (o k b c : ℕ) → o ≤ k → b % 2 ^ o ≡ 0 → c % 2 ^ k ≡ 0 → b < c + 2 ^ k → b + 2 ^ o ≤ c + 2 ^ k
aligned_nested o k b c le ab ac h =
    let whole = pow-split (k - o) o k (omega arith) in
    let eb = aligned_multiple o b ab in
    let ec = aligned_multiple k c ac in
    let big : c / 2 ^ k * 2 ^ k ≡ c / 2 ^ k * (2 ^ (k - o) * 2 ^ o) =
      ap (λ (t : ℕ). c / 2 ^ k * t) whole in
    let next = lt-mul (b / 2 ^ o) (c / 2 ^ k * 2 ^ (k - o) + 2 ^ (k - o)) (2 ^ o) in
    ground (arith, next)

-- An aligned block below the first page of a larger aligned block ends below it.
pub aligned_below : (o k b c : ℕ) → o ≤ k → b % 2 ^ o ≡ 0 → c % 2 ^ k ≡ 0 → b < c → b + 2 ^ o ≤ c
aligned_below o k b c le ab ac h =
    let whole = pow-split (k - o) o k (omega arith) in
    let eb = aligned_multiple o b ab in
    let ec = aligned_multiple k c ac in
    let big : c / 2 ^ k * 2 ^ k ≡ c / 2 ^ k * (2 ^ (k - o) * 2 ^ o) =
      ap (λ (t : ℕ). c / 2 ^ k * t) whole in
    let next = lt-mul (b / 2 ^ o) (c / 2 ^ k * 2 ^ (k - o)) (2 ^ o) in ground (arith, next)

-- The buddy below a block in the upper half.
pub aligned_lower : (o p : ℕ) → p % 2 ^ suc o ≡ 2 ^ o → ((p - 2 ^ o) % 2 ^ suc o ≡ 0) × (2 ^ o ≤ p)
aligned_lower o p high =
    let pos = one-le-pow (suc o) 2 (omega arith) in
    let whole = divide p (2 ^ suc o) pos in
    (
      mod_at (p - 2 ^ o) (p / 2 ^ suc o) (2 ^ suc o) 0 (omega (arith, whole)) pos,
      omega (arith, whole),
    )

upper_half : (o p : ℕ) → p % 2 ^ suc o ≡ 0 → (p + 2 ^ o) % 2 ^ suc o ≡ 2 ^ o
upper_half o p al =
    mod_at (p + 2 ^ o) (p / 2 ^ suc o) (2 ^ suc o) (2 ^ o)
      (omega (arith, divide p (2 ^ suc o) (one-le-pow (suc o) 2 (omega arith))))
      (omega (arith, pow-suc 2 o, one-le-pow o 2))

-- The buddy of a block's buddy is the block.
pub get_page_buddy_self : (o p : ℕ) → p % 2 ^ o ≡ 0 → get_page_buddy (get_page_buddy p o) o ≡ p
get_page_buddy_self o p al = elim (aligned_cases o p al) [
  | inl low ↦
      rw (get_page_buddy-upper o p low, get_page_buddy-lower o (p + 2 ^ o) (upper_half o p low))
        (omega arith)
  | inr high ↦
      let (al', le) = aligned_lower o p high in
      rw (get_page_buddy-lower o p high, get_page_buddy-upper o (p - 2 ^ o) al') (omega arith)
]
