-- ===== src/Pool/Inv.antt =====
-- What a page pool holds: which blocks are free, and that the free lists, the page database and the
-- blocks agree.
use closure_os.Base.{
  ℕ, ◌+◌, ◌%◌, ◌^◌, ◌≤◌, ◌<◌, ◌≡◌, ◌≢◌, ◌↔◌, ◌⊎◌, inl, inr, refl, Bool, true, false, ◌||◌, List, [],
  ◌∷◌, ◌++◌, ◌==◌, ℕ_discrete, if◌then◌else◌, All, arith,
}
use closure_os.ListHead.{Node, Links, page_list, free_head}
use closure_os.ListHead.Segment.{IsApart}
use closure_os.ListHead.Ring.{IsRing}
use closure_os.Kernel.{Page, Kernel}
use closure_os.Pool.{max_page_order, can_merge}

-- The first pages of the free blocks of each order, in list order.
abbrev pub Free : Type 0
Free = ℕ → List ℕ

abbrev pub has : ℕ → List ℕ → Bool
has a [] = false
has a (x ∷ xs) = (a == x) || has a xs

abbrev pub nodes : List ℕ → List Node
nodes [] = []
nodes (p ∷ ps) = page_list p ∷ nodes ps

-- Page `q` lies in the block of order `o` at `p`.
abbrev pub Within : ℕ → ℕ → ℕ → Type 0
Within o p q = (p ≤ q) × (q < p + 2 ^ o)

-- The first page of a free block says so.
pub record IsBlock (page : ℕ → Page) (o p : ℕ) : Type 0 where
  pub aligned : p % 2 ^ o ≡ 0
  pub headed : (page p).is_head ≡ true
  pub freed : (page p).is_free ≡ true
  pub sized : (page p).order ≡ o

pub record IsPool (s : Kernel) (pool : ℕ) (free : Free) : Type 0 where
  pub ring : (o : ℕ) → o < max_page_order → IsRing s.links (free_head pool o) (nodes (free o))
  pub block : (o p : ℕ) → o < max_page_order → has p (free o) ≡ true → IsBlock s.page o p
  -- no page lies in two free blocks
  pub apart :
      (o p o' p' q : ℕ)
      → o < max_page_order
      → o' < max_page_order
      → has p (free o) ≡ true
      → has p' (free o') ≡ true
      → Within o p q
      → Within o' p' q
      → (o ≡ o') × (p ≡ p')

-- No page of the block lies in a free block.
abbrev pub IsClear : Free → ℕ → ℕ → Type 0
IsClear free o p =
    (o' p' q : ℕ)
    → o' < max_page_order
    → has p' (free o') ≡ true
    → Within o p q
    → Within o' p' q
    → ⊥

-- Page `q` lies in a free block.
pub record Covers (free : Free) (q : ℕ) : Type 0 where
  pub order : ℕ
  pub head : ℕ
  pub small : order < max_page_order
  pub listed : has head (free order) ≡ true
  pub within : Within order head q

abbrev pub push : Free → ℕ → ℕ → Free
push free o p i = if o == i then p ∷ free i else free i

pub IsApart-nodes : (p : ℕ) (ps : List ℕ) → has p ps ≡ false → IsApart (page_list p) (nodes ps)
IsApart-nodes p [] h = tt
IsApart-nodes p (x ∷ ps) h = (ground arith, IsApart-nodes p ps (ground arith))

pub IsApart-nodes_of :
    (n : Node) (ps : List ℕ) → ((y : ℕ) → has y ps ≡ true → n ≢ page_list y) → IsApart n (nodes ps)
IsApart-nodes_of n [] apart = tt
IsApart-nodes_of n (p ∷ ps) apart =
    (apart p (ground arith), IsApart-nodes_of n ps (λ y m. apart y (ground arith)))

pub not-has_of_apart : (p : ℕ) (ps : List ℕ) → IsApart (page_list p) (nodes ps) → has p ps ≡ false
not-has_of_apart p [] h = refl
not-has_of_apart p (x ∷ ps) h = ground (arith, not-has_of_apart p ps)

pub IsApart-head : (pool o p : ℕ) (ps : List ℕ) → IsApart (free_head pool o) (nodes ps)
IsApart-head pool o p [] = tt
IsApart-head pool o p (x ∷ ps) = ((λ e. cc), IsApart-head pool o p ps)

-- A memory that agrees at each page of `ps` agrees at their nodes.
pub All-nodes :
    (l l' : Links) (ps : List ℕ)
    → ((x : ℕ) → has x ps ≡ true → l' (page_list x) ≡ l (page_list x))
    → All (λ n. l' n ≡ l n) (nodes ps)
All-nodes l l' [] same = tt
All-nodes l l' (p ∷ ps) same =
    (same p (ground arith), All-nodes l l' ps (λ x m. same x (ground arith)))

-- What is neither the head of a list nor one of its pages does not stand behind the head.
pub ne-next :
    (l : Links) (h m : Node) (ps : List ℕ)
    → IsRing l h (nodes ps)
    → m ≢ h
    → ((y : ℕ) → has y ps ≡ true → m ≢ page_list y)
    → m ≢ (l h).next
ne-next l h m [] r e apart = ground arith
ne-next l h m (p ∷ ps) r e apart = ground (arith, apart p)

pub push_self : (free : Free) (o p : ℕ) → push free o p o ≡ p ∷ free o
push_self free o p = ground arith

pub push-other : (free : Free) (o p i : ℕ) → o ≢ i → push free o p i ≡ free i
push-other free o p i ne = ground arith

-- A block on the lists behind `push` is the pushed one or an old one.
pub has-push :
    (free : Free) (o p i q : ℕ)
    → has q (push free o p i) ≡ true
    → ((o ≡ i) × (p ≡ q)) ⊎ (has q (free i) ≡ true)
has-push free o p i q m = ground arith

pub has-push_old :
    (free : Free) (o p i q : ℕ) → has q (free i) ≡ true → has q (push free o p i) ≡ true
has-push_old free o p i q m = ground arith

-- The lists with `ps` in place of those of order `o`.
abbrev pub pull : Free → ℕ → List ℕ → Free
pull free o ps i = if o == i then ps else free i

pub pull_self : (free : Free) (o : ℕ) (ps : List ℕ) → pull free o ps o ≡ ps
pull_self free o ps = ground arith

pub pull-other : (free : Free) (o : ℕ) (ps : List ℕ) (i : ℕ) → o ≢ i → pull free o ps i ≡ free i
pull-other free o ps i ne = ground arith

pub nodes-append : (ps qs : List ℕ) → nodes (ps ++ qs) ≡ nodes ps ++ nodes qs
nodes-append [] qs = refl
nodes-append (p ∷ ps) qs = rw (nodes-append ps qs)

pub has-append : (a : ℕ) (ps qs : List ℕ) → has a (ps ++ qs) ≡ (has a ps || has a qs)
has-append a [] qs = refl
has-append a (p ∷ ps) qs = ground (arith, has-append a ps qs)

-- A member divides its list.
pub has-split :
    (p : ℕ) (ps : List ℕ) → has p ps ≡ true → (ys : List ℕ) × (zs : List ℕ) × (ps ≡ ys ++ p ∷ zs)
has-split p [] m = absurd (ground arith)
has-split p (x ∷ ps) m = elim (ℕ_discrete p x) [
  | yes e ↦ ([], ps, rw e)
  | no ne ↦ let (ys, zs, e) = has-split p ps (ground arith) in (x ∷ ys, zs, rw e)
]

-- The pages of the blocks behind `push` are the old ones and those of the new block.
pub Covers-push :
    (free : Free) (o p q : ℕ)
    → o < max_page_order
    → Covers (push free o p) q ↔ (Covers free q ⊎ Within o p q)
Covers-push free o p q ho = (
  (λ c. elim (has-push free o p c.order c.head c.listed) [
    | inl (eo, ep) ↦ inr (rw (eo, ep) c.within)
    | inr old ↦ inl (record {
      order = c.order;
      head = c.head;
      small = c.small;
      listed = old;
      within = c.within;
    })
  ]),
  (elim [
    | inl c ↦ record {
      order = c.order;
      head = c.head;
      small = c.small;
      listed = has-push_old free o p c.order c.head c.listed;
      within = c.within;
    }
    | inr w ↦ record { order = o; head = p; small = ho; listed = ground arith; within = w }
  ]),
)

-- Page `q` stands on a free list.
abbrev pub Listed : Free → ℕ → Type 0
Listed free q = (i : ℕ) × (i < max_page_order) × (has q (free i) ≡ true)

-- A page outside `except` that says it heads a free block stands on a free list.
abbrev pub IsListedBut : (ℕ → Type 0) → Kernel → Free → Type 0
IsListedBut except s free = (q : ℕ) → (except q → ⊥) → can_merge (s.page q) ≡ true → Listed free q

-- The same outside one block, and of all pages.
abbrev pub IsListed : Kernel → Free → ℕ → ℕ → Type 0
IsListed s free o p = IsListedBut (Within o p) s free

abbrev pub IsAllListed : Kernel → Free → Type 0
IsAllListed s free = (q : ℕ) → can_merge (s.page q) ≡ true → Listed free q
