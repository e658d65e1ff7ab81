-- ===== src/ListHead/Ring/Add.antt =====
-- `list_add_next` puts a node in front.
use closure_os.Base.{◌≡◌, ◌≢◌, List, [], ◌∷◌, All, sym, arith}
use closure_os.ListHead.{Node, Links, list_add_next}
use closure_os.ListHead.Segment.{Segment-frame, IsApart}
use closure_os.ListHead.Ring.{IsRing}

-- `list_add_next` writes the head, the new node and the old first node, and no other list head.
pub list_add_next-same :
    (l : Links) (h n m : Node) → m ≢ h → m ≢ n → m ≢ (l h).next → list_add_next h n l m ≡ l m
unfolding list_add_next
list_add_next-same l h n m e₁ e₂ e₃ = ground arith

rest_same :
    (l : Links) (h n x : Node) (xs : List Node)
    → (l h).next ≡ x
    → IsApart h xs
    → IsApart n xs
    → IsApart x xs
    → All (λ y. list_add_next h n l y ≡ l y) xs
rest_same l h n x [] first ah an ax = tt
rest_same l h n x (y ∷ ys) first ah an ax = (
  list_add_next-same l h n y (λ e. ah.0 (sym e)) (λ e. an.0 (sym e)) (ground arith),
  rest_same l h n x ys first ah.1 an.1 ax.1,
)

-- A node that is not in the list comes to stand in front of all others.
pub list_add_next-IsRing :
    (l : Links) (h n : Node) (xs : List Node)
    → IsRing l h xs
    → IsApart n (h ∷ xs)
    → IsRing (list_add_next h n l) h (n ∷ xs)
unfolding list_add_next
list_add_next-IsRing l h n [] r a = ground arith
list_add_next-IsRing l h n (x ∷ xs) r a =
    let same = rest_same l h n x xs r.closed.0 r.distinct.0.1 a.1.1 r.distinct.1.0 in
    let rest =
      Segment-frame l (list_add_next h n l) x xs h r.closed.2 (ground arith) same (ground arith) in
    record {
      closed = (ground arith, ground arith, (ground arith, ground arith, rest));
      distinct = (((λ e. a.0 (sym e)), r.distinct.0), (a.1, r.distinct.1));
    }
