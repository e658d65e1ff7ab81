-- ===== src/ListHead/Segment.antt =====
-- Doubly linked segments, and the changes of memory that they survive.
use closure_os.Base.{◌≡◌, ◌≢◌, List, [], ◌∷◌, ◌++◌, All, sym, arith}
use closure_os.ListHead.{Node, Links}

-- From `a` the `next` pointers lead through the nodes `xs` to `b`, and `prev` leads back.
abbrev pub Segment : Links → Node → List Node → Node → Type 0
Segment l a [] b = ((l a).next ≡ b) × ((l b).prev ≡ a)
Segment l a (x ∷ xs) b = ((l a).next ≡ x) × ((l x).prev ≡ a) × Segment l x xs b

-- `n` is none of the nodes `xs`.
abbrev pub IsApart : Node → List Node → Type 0
IsApart n = All (λ x. n ≢ x)

-- No node occurs twice.
abbrev pub IsDistinct : List Node → Type 0
IsDistinct [] = Unit
IsDistinct (x ∷ xs) = IsApart x xs × IsDistinct xs

pub Segment-frame :
    (l l' : Links) (a : Node) (xs : List Node) (b : Node)
    → Segment l a xs b
    → (l' a).next ≡ (l a).next
    → All (λ x. l' x ≡ l x) xs
    → (l' b).prev ≡ (l b).prev
    → Segment l' a xs b
Segment-frame l l' a [] b s e h e' = ground arith
Segment-frame l l' a (x ∷ xs) b s e h e' =
    (ground arith, ground arith, Segment-frame l l' x xs b s.2 (ground arith) h.1 e')

pub Segment-split :
    (l : Links) (a : Node) (ys : List Node) (n : Node) (zs : List Node) (b : Node)
    → Segment l a (ys ++ n ∷ zs) b
    → Segment l a ys n × Segment l n zs b
Segment-split l a [] n zs b s = ((s.0, s.1), s.2)
Segment-split l a (y ∷ ys) n zs b s =
    let (front, back) = Segment-split l y ys n zs b s.2 in ((s.0, s.1, front), back)

pub Segment-join :
    (l : Links) (a : Node) (ys : List Node) (n : Node) (zs : List Node) (b : Node)
    → Segment l a ys n
    → Segment l n zs b
    → Segment l a (ys ++ n ∷ zs) b
Segment-join l a [] n zs b s t = (s.0, s.1, t)
Segment-join l a (y ∷ ys) n zs b s t = (s.0, s.1, Segment-join l y ys n zs b s.2 t)

pub IsApart-append :
    (n : Node) (xs ys : List Node) → IsApart n (xs ++ ys) → IsApart n xs × IsApart n ys
IsApart-append n [] ys h = (tt, h)
IsApart-append n (x ∷ xs) ys h =
    let (front, back) = IsApart-append n xs ys h.1 in ((h.0, front), back)

pub IsApart-join :
    (n : Node) (xs ys : List Node) → IsApart n xs → IsApart n ys → IsApart n (xs ++ ys)
IsApart-join n [] ys hx hy = hy
IsApart-join n (x ∷ xs) ys hx hy = (hx.0, IsApart-join n xs ys hx.1 hy)

-- A distinct list stays so without a node in its middle, which is apart from the rest.
pub IsDistinct-without :
    (ys : List Node) (n : Node) (zs : List Node)
    → IsDistinct (ys ++ n ∷ zs)
    → IsDistinct (ys ++ zs) × IsApart n ys × IsApart n zs
IsDistinct-without [] n zs d = (d.1, tt, d.0)
IsDistinct-without (y ∷ ys) n zs d =
    let (rest, before, after) = IsDistinct-without ys n zs d.1 in
    let (front, back) = IsApart-append y ys (n ∷ zs) d.0 in
    ((IsApart-join y ys zs front back.1, rest), (λ e. back.0 (sym e), before), after)

pub IsApart-same :
    (l l' : Links) (n : Node) (xs : List Node)
    → IsApart n xs
    → ((m : Node) → m ≢ n → l' m ≡ l m)
    → All (λ x. l' x ≡ l x) xs
IsApart-same l l' n [] h same = tt
IsApart-same l l' n (x ∷ xs) h same = (same x (λ e. h.0 (sym e)), IsApart-same l l' n xs h.1 same)
