-- ===== src/Pool/Pair.antt =====
-- A block and its buddy.
use closure_os.Base.{
  ℕ, suc, ◌+◌, ◌-◌, ◌%◌, ◌^◌, ◌≡◌, true, false, ◌↔◌, ◌⊎◌, inl, inr, ltb, if◌then◌else◌, arith,
}
use native.Mathlib.Nat.{one-le-pow, pow-suc}
use closure_os.Page.{get_page_buddy}
use closure_os.Page.Convert.{
  aligned_lower, get_page_buddy-upper, get_page_buddy-lower, aligned_cases,
}
use closure_os.Pool.Inv.{Within}
use closure_os.Pool.Split.{Within-suc}

-- The lower one of a block and its buddy, and how the two make up a block of the next order.
pub record IsPair (o p buddy low : ℕ) : Type 0 where
  pub aligned : low % 2 ^ suc o ≡ 0
  pub both : (q : ℕ) → Within (suc o) low q ↔ (Within o p q ⊎ Within o buddy q)
  pub apart : Within o p buddy → ⊥
  pub inside : Within (suc o) low p

IsPair-low :
    (o p : ℕ)
    → p % 2 ^ suc o ≡ 0
    → IsPair o p (p + 2 ^ o) (if ltb (p + 2 ^ o) p then p + 2 ^ o else p)
IsPair-low o p al =
    let order : ltb (p + 2 ^ o) p ≡ false = ground arith in
    rw order (record {
      aligned = al;
      both = Within-suc o p;
      apart = λ w. omega arith;
      inside = omega (arith, one-le-pow (suc o) 2);
    })

IsPair-high :
    (o p : ℕ)
    → p % 2 ^ suc o ≡ 2 ^ o
    → IsPair o p (p - 2 ^ o) (if ltb (p - 2 ^ o) p then p - 2 ^ o else p)
IsPair-high o p high =
    let (al, le) = aligned_lower o p high in
    let pos = one-le-pow o 2 (omega arith) in
    let order : ltb (p - 2 ^ o) p ≡ true = ground arith in
    rw order (record {
      aligned = al;
      both = λ q. ((λ w. omega (arith, pow-suc 2 o)), (λ w. omega (arith, pow-suc 2 o)));
      apart = λ w. omega arith;
      inside = omega (arith, pow-suc 2 o);
    })

pub IsPair-of :
    (o p : ℕ)
    → p % 2 ^ o ≡ 0
    → IsPair o p (get_page_buddy p o) (if ltb (get_page_buddy p o) p then get_page_buddy p o else p)
IsPair-of o p al = elim (aligned_cases o p al) [
  | inl low ↦ rw (get_page_buddy-upper o p low) (IsPair-low o p low)
  | inr high ↦ rw (get_page_buddy-lower o p high) (IsPair-high o p high)
]
