-- ===== src/ListHead/Ring.antt =====
-- A list head with its nodes is a ring, and the operations of list_main.cppm on rings.
pub mod Add
pub mod Del
use closure_os.Base.{◌≡◌, ◌≢◌, refl, true, Bool, false, ◌↔◌, List, [], ◌∷◌, All, arith}
use closure_os.ListHead.{Node, Node-discrete, Links, list_head_init, list_empty}
use closure_os.ListHead.Segment.{Segment, Segment-frame, IsApart, IsDistinct}

-- The list of `h` holds the nodes `xs`, in order.
pub record IsRing (l : Links) (h : Node) (xs : List Node) : Type 0 where
  pub closed : Segment l h xs h
  pub distinct : IsDistinct (h ∷ xs)

pub IsRing-frame :
    (l l' : Links) (h : Node) (xs : List Node)
    → IsRing l h xs
    → l' h ≡ l h
    → All (λ x. l' x ≡ l x) xs
    → IsRing l' h xs
IsRing-frame l l' h xs r e same = record {
  closed = Segment-frame l l' h xs h r.closed (ground arith) same (ground arith);
  distinct = r.distinct;
}

-- A list head that `list_head_init` has set up holds no node.
pub list_head_init-IsRing : (h : Node) (l : Links) → IsRing (list_head_init h l) h []
unfolding list_head_init
list_head_init-IsRing h l = ground arith

-- `list_empty` holds exactly of a ring without nodes.
pub list_empty_iff :
    {l : Links} (h : Node) (xs : List Node) → IsRing l h xs → (list_empty h l ≡ true) ↔ (xs ≡ [])
unfolding list_empty
list_empty_iff h [] r = ground arith
list_empty_iff h (x ∷ xs) r = ground arith
