-- ===== src/Examples/Lists.antt =====
-- A list of pages, a lock, and the arithmetic of the page database at concrete pages.
use closure_os.Base.{ℕ, ◌+◌, ◌≡◌, refl, true, false, [], ◌∷◌, ◌==◌, arith}
use closure_os.ListHead.{Node, Links, page_list, free_head, list_head_init, list_add_next, list_del}
use closure_os.ListHead.Segment.{IsApart}
use closure_os.ListHead.Ring.{IsRing, list_head_init-IsRing}
use closure_os.ListHead.Ring.Add.{list_add_next-IsRing}
use closure_os.ListHead.Ring.Del.{list_del-IsRing}
use closure_os.Atomic.{try_lock, reset}
use closure_os.Atomic.Exclusion.{
  System, inside, here, later, try_wins, start, move, mutual_exclusion,
}
use closure_os.Kernel.{Page}
use closure_os.Page.{reinit_page, get_head_page, virt_to_page, page_to_virt}
use closure_os.Page.Reinit.{reinit_page_lem}
use closure_os.Page.Convert.{get_head_page_lem, virt_to_page-page_to_virt}
use closure_os.Examples.Pools.{memory, zero_page}

abbrev head : Node
head = free_head 0 3

abbrev one : Links
one = list_add_next head (page_list 8) (list_head_init head memory.links)

page_8-IsApart : IsApart (page_list 8) (head ∷ [])
page_8-IsApart = ((λ e. cc), tt)

one-IsRing : IsRing one head (page_list 8 ∷ [])
one-IsRing =
    list_add_next-IsRing (list_head_init head memory.links) head (page_list 8) []
      (list_head_init-IsRing head memory.links) page_8-IsApart

page_16-IsApart : IsApart (page_list 16) (head ∷ page_list 8 ∷ [])
page_16-IsApart = ((λ e. cc), ((λ e. ground arith), tt))

list_add_next_example :
    IsRing (list_add_next head (page_list 16) one) head (page_list 16 ∷ page_list 8 ∷ [])
list_add_next_example =
    list_add_next-IsRing one head (page_list 16) (page_list 8 ∷ []) one-IsRing page_16-IsApart

list_del_example : IsRing (list_del (page_list 8) one) head []
list_del_example = list_del-IsRing one head [] (page_list 8) [] one-IsRing

-- Processor 3 has taken the lock.
abbrev taken : System
taken = record { counter = (try_lock (start 7).counter).cell; pc = move (start 7).pc 3 inside }

wins : (try_lock (start 7).counter).result ≡ true
unfolding reset try_lock
wins = refl

mutual_exclusion_example :
    ((i j : ℕ) → taken.pc i ≡ inside → taken.pc j ≡ inside → i ≡ j)
    × ((i : ℕ) → taken.pc i ≡ inside → taken.counter ≡ 1)
    × (taken.counter ≡ 1 → (i : ℕ) × (taken.pc i ≡ inside))
mutual_exclusion_example =
    mutual_exclusion {garbage = 7} {s = taken} (later here (try_wins 3 refl wins))

reinit_page_example :
    reinit_page 8 2 true memory.page 9
    ≡ record zero_page { order = 2; is_free = true; is_head = false }
reinit_page_example = reinit_page_lem 8 2 true memory.page 9

abbrev block_at_8 : ℕ → Page
block_at_8 q = record zero_page { order = 2; is_head = q == 8 }

get_head_page_example : get_head_page block_at_8 11 ≡ 8
get_head_page_example =
    get_head_page_lem block_at_8 2 8 3 (omega arith) refl (omega arith) (omega arith) refl refl

virt_to_page_example : virt_to_page (page_to_virt 5 + 100) ≡ 5
virt_to_page_example = virt_to_page-page_to_virt 5 100 (omega arith) (omega arith)
