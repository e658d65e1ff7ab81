-- ===== src/ListHead/Ring/Del.antt =====
-- `list_del` takes a node out.
use closure_os.Base.{◌≡◌, ◌≢◌, List, [], ◌∷◌, ◌++◌, All, sym, arith}
use closure_os.ListHead.{Node, Links, list_del}
use closure_os.ListHead.Segment.{
  Segment, Segment-frame, Segment-split, IsApart, IsDistinct, IsDistinct-without, IsApart-append,
  IsApart-join,
}
use closure_os.ListHead.Ring.{IsRing}

-- `list_del` writes the two neighbours of its node, and no other list head.
pub list_del-same :
    (l : Links) (n m : Node) → m ≢ (l n).prev → m ≢ (l n).next → list_del n l m ≡ l m
unfolding list_del
list_del-same l n m e₁ e₂ = ground arith

rest_same :
    (l : Links) (n p q : Node) (xs : List Node)
    → (l n).prev ≡ p
    → (l n).next ≡ q
    → IsApart p xs
    → IsApart q xs
    → All (λ y. list_del n l y ≡ l y) xs
rest_same l n p q [] ep eq ap aq = tt
rest_same l n p q (y ∷ ys) ep eq ap aq =
    (list_del-same l n y (ground arith) (ground arith), rest_same l n p q ys ep eq ap.1 aq.1)

-- What is apart from a segment's inner nodes is none of the neighbours of its ends.
pub prev-ne :
    (l : Links) (m y : Node) (ys : List Node) (n : Node)
    → Segment l y ys n
    → IsApart m (y ∷ ys)
    → m ≢ (l n).prev
prev-ne l m y [] n s a = ground arith
prev-ne l m y (x ∷ xs) n s a = prev-ne l m x xs n s.2 a.1

pub next-ne :
    (l : Links) (m n : Node) (zs : List Node) (b : Node)
    → Segment l n zs b
    → IsApart m zs
    → m ≢ b
    → m ≢ (l n).next
next-ne l m n [] b s a e = ground arith
next-ne l m n (z ∷ zs) b s a e = ground arith

-- A segment that ends at `n` and one that begins there are joined without it.
pub list_del-Segment :
    (l : Links) (a : Node) (ys : List Node) (n : Node) (zs : List Node) (b : Node)
    → Segment l a ys n
    → Segment l n zs b
    → IsDistinct (a ∷ ys)
    → IsDistinct zs
    → All (λ y. IsApart y (n ∷ zs)) (a ∷ ys)
    → IsApart b ys
    → IsApart b (n ∷ zs)
    → Segment (list_del n l) a (ys ++ zs) b
unfolding list_del
list_del-Segment l a [] n [] b s t da dz apart ab az = ground arith
list_del-Segment l a [] n (z ∷ zs) b s t da dz apart ab az =
    let same = rest_same l n a z zs s.1 t.0 apart.0.1.1 dz.0 in
    (
      ground arith,
      ground arith,
      Segment-frame l (list_del n l) z zs b t.2 (ground arith) same (ground arith),
    )
list_del-Segment l a (y ∷ ys) n zs b s t da dz apart ab az =
    let a_stays = prev-ne l a y ys n s.2 da.0 in
    let y_stays = next-ne l y n zs b t apart.1.0.1 (λ e. ab.0 (sym e)) in
    (ground arith, ground arith, list_del-Segment l y ys n zs b s.2 t da.1 dz apart.1 ab.1 az)

IsDistinct-tail : (xs ys : List Node) → IsDistinct (xs ++ ys) → IsDistinct ys
IsDistinct-tail [] ys d = d
IsDistinct-tail (x ∷ xs) ys d = IsDistinct-tail xs ys d.1

IsApart-of_distinct : (ys zs : List Node) → IsDistinct (ys ++ zs) → All (λ y. IsApart y zs) ys
IsApart-of_distinct [] zs d = tt
IsApart-of_distinct (y ∷ ys) zs d = ((IsApart-append y ys zs d.0).1, IsApart-of_distinct ys zs d.1)

IsDistinct-front : (xs ys : List Node) → IsDistinct (xs ++ ys) → IsDistinct xs
IsDistinct-front [] ys d = tt
IsDistinct-front (x ∷ xs) ys d = ((IsApart-append x xs ys d.0).0, IsDistinct-front xs ys d.1)

-- A node anywhere in the list is taken out, and the other nodes keep their order.
pub list_del-IsRing :
    (l : Links) (h : Node) (ys : List Node) (n : Node) (zs : List Node)
    → IsRing l h (ys ++ n ∷ zs)
    → IsRing (list_del n l) h (ys ++ zs)
list_del-IsRing l h ys n zs r =
    let (front, back) = Segment-split l h ys n zs h r.closed in
    let (h_front, h_back) = IsApart-append h ys (n ∷ zs) r.distinct.0 in
    let inner = IsDistinct-without ys n zs r.distinct.1 in
    record {
      closed =
          list_del-Segment l h ys n zs h front back
            (h_front, IsDistinct-front ys (n ∷ zs) r.distinct.1)
            (IsDistinct-tail ys (n ∷ zs) r.distinct.1).1
            (h_back, IsApart-of_distinct ys (n ∷ zs) r.distinct.1) h_front h_back;
      distinct = (IsApart-join h ys zs h_front h_back.1, inner.0);
    }
