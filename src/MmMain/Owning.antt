-- ===== src/MmMain/Owning.antt =====
-- `PagePool::AddPages` tells a page its pool and gives the page back.
use closure_os.Base.{ℕ, ◌≡◌, ◌⊎◌, true, inr, some, arith}
use closure_os.Kernel.{Kernel, update}
use closure_os.Pool.{can_merge}
use closure_os.Pool.Inv.{Free, Within, IsPool, Covers, Covers-push}
use closure_os.Pool.Free.{Freed}

-- The memory when page `i` is told its pool.
abbrev pub owning : ℕ → ℕ → Kernel → Kernel
owning pool i s = record s { page = update s.page i (record (s.page i) { pool = some pool }) }

pub owning-other :
    (pool i : ℕ) (s : Kernel) (q : ℕ) → (i ≡ q → ⊥) → (owning pool i s).page q ≡ s.page q
owning-other pool i s q ne = ground arith

pub owning-type :
    (pool i : ℕ) (s : Kernel) (q : ℕ) → ((owning pool i s).page q).type ≡ (s.page q).type
owning-type pool i s q = ground arith

-- Page `i` and the pages that the pool had before belong to it.
pub owning-owned :
    (pool i : ℕ) (s : Kernel) (q : ℕ)
    → ((s.page q).pool ≡ some pool) ⊎ (i ≡ q)
    → ((owning pool i s).page q).pool ≡ some pool
owning-owned pool i s q here = ground arith

pub owning-can_merge :
    (pool i : ℕ) (s : Kernel) (q : ℕ)
    → can_merge ((owning pool i s).page q) ≡ true
    → can_merge (s.page q) ≡ true
unfolding can_merge
owning-can_merge pool i s q can = ground arith

pub owning-IsPool :
    {s : Kernel} {free : Free} (pool i : ℕ)
    → IsPool s pool free
    → IsPool (owning pool i s) pool free
owning-IsPool pool i inv = record {
  ring = inv.ring;
  block = λ o p h m.
      let old = inv.block o p h m in
      record {
        aligned = old.aligned;
        headed = ground (arith, old.headed);
        freed = ground (arith, old.freed);
        sized = ground (arith, old.sized);
      };
  apart = inv.apart;
}

-- The pages of the block that a freed block ends up in are free.
pub in_whole :
    {s : Kernel} {pool : ℕ} {free : Free} {o p : ℕ} {after : Kernel}
    (f : Freed s pool free o p after) (q : ℕ)
    → Within f.whole.order f.whole.head q
    → Covers f.lists q
in_whole f q w =
    rw f.lists_are ((Covers-push f.others f.whole.order f.whole.head q f.fits).1 (inr w))
