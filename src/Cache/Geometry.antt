-- ===== src/Cache/Geometry.antt =====
-- The blocks that `KMemCache::Init` chooses for an object size.
use closure_os.Base.{ℕ, zero, suc, ◌*◌, ◌/◌, ◌%◌, ◌^◌, ◌≤◌, ◌<◌, ◌≡◌, refl, arith}
use native.Mathlib.Nat.{pow-suc, pow-le-pow_right}
use native.Mathlib.Numerals.{add-one}
use closure_os.Kernel.{Kernel, update_self}
use closure_os.Cache.{cache_order, init}

lt-two_pow : (n : ℕ) → n < 2 ^ n
lt-two_pow zero = omega arith
lt-two_pow (suc n) = omega (arith, pow-suc 2 n, lt-two_pow n)

-- An object fits into a block of the chosen order.
pub cache_order-fits : (sz : ℕ) → sz ≤ 4096 * 2 ^ cache_order sz
unfolding cache_order
cache_order-fits sz =
    ground (arith, lt-two_pow (sz / 4096), pow-suc 2 (sz / 4096), add-one (sz / 4096))

pub quotient_bounds : (a b : ℕ) → 0 < b → b ≤ a → (1 ≤ a / b) × (a / b * b ≤ a)
quotient_bounds a b pos le = grind arith

-- The shift of `Init` loses no bits up to order 51.
pub block_size-exact : (order : ℕ) → order < 52 → 4096 * 2 ^ order % 2 ^ 64 ≡ 4096 * 2 ^ order
block_size-exact order small =
    let le : order ≤ 51 = omega arith in
    let wide : 2 ^ order ≤ 2 ^ 51 = pow-le-pow_right (omega arith) le in omega (arith, wide)

cache_order_small : (sz : ℕ) → sz < 208896 → cache_order sz < 52
unfolding cache_order
cache_order_small sz small = ground arith

-- `Init` of a cache for objects of a positive size below 208896 = 51 * 4096, the first size for which
-- the shift of the source loses bits, picks blocks that hold at least one object, and counts no more
-- objects than fit.
pub init-geometry :
    (k sz : ℕ) (s : Kernel)
    → 0 < sz
    → sz < 208896
    → let c = (init k sz s).cache k in
      (c.obj_sz ≡ sz) × (1 ≤ c.page_obj_nr) × (c.page_obj_nr * c.obj_sz ≤ 4096 * 2 ^ c.order)
unfolding init
init-geometry k sz s pos small =
    let b = quotient_bounds (4096 * 2 ^ cache_order sz) sz pos (cache_order-fits sz) in
    let exact = block_size-exact (cache_order sz) (cache_order_small sz small) in
    rw (update_self s.cache k, exact) (refl, b.0, b.1)
