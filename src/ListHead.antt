-- ===== src/ListHead.antt =====
-- The intrusive lists of src/kernel/lib/list/list_main.cppm: `prev` and `next` pointers in memory,
-- and the operations on them as sequences of reads and writes.
pub mod Segment
pub mod Ring
use closure_os.Base.{ℕ, ◌≡◌, Bool, ◌&&◌, true, false, ite, ℕ_discrete}

-- The addresses of `ListHead` objects: `null`, the `list` member of a page of the page database, the
-- `freelist[order]` of a page pool, and the `partial` and `full` members of an object cache.
pub data Node : Type 0 where
  null : Node
  page_list : ℕ → Node
  free_head : (pool order : ℕ) → Node
  partial_head : ℕ → Node
  full_head : ℕ → Node

unfoldable pub Node-discrete : Discrete Node
Node-discrete = hlevel ℕ_discrete

pub record ListHead : Type 0 where
  pub prev : Node
  pub next : Node

-- The memory that holds the list heads.
abbrev pub Links : Type 0
Links = Node → ListHead

-- `a->prev = v` and `a->next = v`
unfoldable pub set_prev : Node → Node → Links → Links
set_prev a v l n = ite (Node-discrete a n) (record (l n) { prev = v }) (l n)

unfoldable pub set_next : Node → Node → Links → Links
set_next a v l n = ite (Node-discrete a n) (record (l n) { next = v }) (l n)

unfoldable pub list_head_init : Node → Links → Links
unfolding set_prev set_next
list_head_init head l = set_next head head (set_prev head head l)

unfoldable pub list_add : (node prev next : Node) → Links → Links
unfolding set_prev set_next
list_add node prev next l =
    set_prev next node (set_next node next (set_next prev node (set_prev node prev l)))

-- Each line of the source reads the memory that the lines above have written.
unfoldable pub list_add_prev : (entry prev : Node) → Links → Links
unfolding set_prev set_next
list_add_prev entry prev l =
    let l₁ = set_next (l entry).prev prev l in
    let l₂ = set_prev prev (l₁ entry).prev l₁ in
    let l₃ = set_next prev entry l₂ in set_prev entry prev l₃

unfoldable pub list_add_next : (entry next : Node) → Links → Links
unfolding set_prev set_next
list_add_next entry next l =
    let l₁ = set_prev (l entry).next next l in
    let l₂ = set_prev next entry l₁ in
    let l₃ = set_next next (l₂ entry).next l₂ in set_next entry next l₃

unfoldable pub list_del : Node → Links → Links
unfolding set_prev set_next
list_del node l =
    let l₁ = set_next (l node).prev (l node).next l in set_prev (l₁ node).next (l₁ node).prev l₁

node_eq : Node → Node → Bool
unfolding Node-discrete
node_eq a b = ite (Node-discrete a b) true false

unfoldable pub list_empty : Node → Links → Bool
unfolding node_eq
list_empty entry l = node_eq (l entry).next entry && node_eq (l entry).prev entry
