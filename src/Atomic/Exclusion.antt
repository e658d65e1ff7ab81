-- ===== src/Atomic/Exclusion.antt =====
-- Any number of processors that take and release one spin lock, interleaved in any order.
use closure_os.Base.{ℕ, ◌≡◌, ◌≢◌, refl, true, false, ◌⊎◌, inl, inr, ite, ℕ_discrete, arith}
use closure_os.Atomic.{try_lock, unlock, reset}

-- Where a processor stands: before its call of `Lock`, in the loop of `Lock`, and behind it.
pub data Pc : Type 0 where
  outside : Pc
  waiting : Pc
  inside : Pc

pub record System : Type 0 where
  pub counter : ℕ
  pub pc : ℕ → Pc

abbrev pub move : (ℕ → Pc) → ℕ → Pc → ℕ → Pc
move pc i p j = ite (ℕ_discrete i j) p (pc j)

-- One step of processor `i`: it calls `Lock`, makes a round of its loop, calls `TryLock`, or calls
-- `UnLock` behind a lock that it has taken.
pub data Step (s : System) : System → Type 0 where
  call : (i : ℕ) → s.pc i ≡ outside → Step s (record s { pc = move s.pc i waiting })
  spin_on :
      (i : ℕ)
      → s.pc i ≡ waiting
      → (try_lock s.counter).result ≡ false
      → Step s (record s { counter = (try_lock s.counter).cell })
  enter :
      (i : ℕ)
      → s.pc i ≡ waiting
      → (try_lock s.counter).result ≡ true
      → Step s (record { counter = (try_lock s.counter).cell; pc = move s.pc i inside })
  try_fails :
      (i : ℕ)
      → s.pc i ≡ outside
      → (try_lock s.counter).result ≡ false
      → Step s (record s { counter = (try_lock s.counter).cell })
  try_wins :
      (i : ℕ)
      → s.pc i ≡ outside
      → (try_lock s.counter).result ≡ true
      → Step s (record { counter = (try_lock s.counter).cell; pc = move s.pc i inside })
  leave :
      (i : ℕ)
      → s.pc i ≡ inside
      → Step s (record { counter = (unlock s.counter).cell; pc = move s.pc i outside })

-- The lock starts behind its constructor, which calls `Reset`, with every processor outside.
abbrev pub start : ℕ → System
start garbage = record { counter = (reset garbage).cell; pc = λ _. outside }

pub data Reach (garbage : ℕ) : System → Type 0 where
  here : Reach garbage (start garbage)
  later : {s t : System} → Reach garbage s → Step s t → Reach garbage t

-- The counter is 0 or 1; 0 keeps every processor out; no two are inside; 1 has an owner.
pub record IsExclusive (s : System) : Type 0 where
  pub binary : (s.counter ≡ 0) ⊎ (s.counter ≡ 1)
  pub closed : (i : ℕ) → s.counter ≡ 0 → s.pc i ≢ inside
  pub unique : (i j : ℕ) → s.pc i ≡ inside → s.pc j ≡ inside → i ≡ j
  pub owned : s.counter ≡ 1 → (i : ℕ) × (s.pc i ≡ inside)

start-IsExclusive : (garbage : ℕ) → IsExclusive (start garbage)
unfolding reset
start-IsExclusive garbage = record {
  binary = inl refl;
  closed = λ i e p. cc;
  unique = λ i j p q. cc;
  owned = λ e. absurd (omega arith);
}

-- A step by a processor that stays out keeps the counter, and so the owner.
stay_out :
    (s : System) (i : ℕ) (p : Pc)
    → IsExclusive s
    → s.pc i ≢ inside
    → p ≢ inside
    → IsExclusive (record s { pc = move s.pc i p })
stay_out s i p inv at ne = record {
  binary = inv.binary;
  closed = λ j e q. ground (arith, inv.closed j e);
  unique = λ j k q r. ground (arith, inv.unique j k);
  owned = λ e. let (k, held) = inv.owned e in (k, ground arith);
}

-- A processor that finds the counter at 0 becomes the only one inside.
take :
    (s : System) (i : ℕ)
    → IsExclusive s
    → s.counter ≡ 0
    → IsExclusive (record { counter = 1; pc = move s.pc i inside })
take s i inv free = record {
  binary = inr refl;
  closed = λ j e. absurd (omega arith);
  unique = λ j k q r. ground (arith, inv.closed j free, inv.closed k free);
  owned = λ e. (i, ground arith);
}

Step-IsExclusive : {s t : System} → Step s t → IsExclusive s → IsExclusive t
unfolding try_lock unlock
Step-IsExclusive {s} (call i at) inv = stay_out s i waiting inv (λ e. cc) (λ e. cc)
Step-IsExclusive {s} (spin_on i at busy) inv =
    let same : (try_lock s.counter).cell ≡ s.counter = ground arith in rw same inv
Step-IsExclusive {s} (enter i at won) inv =
    let free : s.counter ≡ 0 = ground arith in
    let taken : (try_lock s.counter).cell ≡ 1 = ground arith in rw taken (take s i inv free)
Step-IsExclusive {s} (try_fails i at busy) inv =
    let same : (try_lock s.counter).cell ≡ s.counter = ground arith in rw same inv
Step-IsExclusive {s} (try_wins i at won) inv =
    let free : s.counter ≡ 0 = ground arith in
    let taken : (try_lock s.counter).cell ≡ 1 = ground arith in rw taken (take s i inv free)
Step-IsExclusive {s} (leave i at) inv = record {
  binary = inl refl;
  closed = λ j e q. ground (arith, inv.unique i j at);
  unique = λ j k q r. ground (arith, inv.unique i j at, inv.unique i k at);
  owned = λ e. absurd (omega arith);
}

pub Reach-IsExclusive : {garbage : ℕ} {s : System} → Reach garbage s → IsExclusive s
Reach-IsExclusive {garbage} here = start-IsExclusive garbage
Reach-IsExclusive (later r st) = Step-IsExclusive st (Reach-IsExclusive r)

-- In every state that processors reach by calls of `Lock`, `TryLock` and `UnLock` from a lock that
-- its constructor has reset, with `UnLock` called only by a processor that has taken the lock, no
-- two processors are behind the lock together; the counter is 1 exactly while one of them is.
pub mutual_exclusion :
    {garbage : ℕ} {s : System}
    → Reach garbage s
    → ((i j : ℕ) → s.pc i ≡ inside → s.pc j ≡ inside → i ≡ j)
      × ((i : ℕ) → s.pc i ≡ inside → s.counter ≡ 1)
      × (s.counter ≡ 1 → (i : ℕ) × (s.pc i ≡ inside))
mutual_exclusion r =
    let inv = Reach-IsExclusive r in
    (
      inv.unique,
      (λ i p. elim inv.binary [ inl z ↦ absurd (inv.closed i z p) | inr o ↦ o ]),
      inv.owned,
    )
