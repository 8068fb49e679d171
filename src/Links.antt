-- ===== src/Links.antt =====
-- The linked lists of list.h, the same in each stack of the repository (here
-- EXP18-TCP_Stack_4/code/18-tcp_stack/include). A node is its address; the store has the two pointers
-- of every node. clear_rtable of EXP18-TCP_Stack_4/code/18-tcp_stack/rtable.c is a loop on it.
pub mod Path
pub mod Insert
pub mod Delete
pub mod Timer
mod Tests
use ucas_computer_network.Common.{
  ℕ, zero, suc, Option, none, some, List, [], ◌∷◌, if◌then◌else◌, ◌==◌, Bool,
}
use ucas_computer_network.Common.Tables.{update}

-- `struct list_head` at each address.
pub record Store : Type 0 where
  pub next : ℕ → ℕ
  pub prev : ℕ → ℕ

abbrev pub set_next : ℕ → ℕ → Store → Store
set_next a b h = record h { next = update h.next a b }

abbrev pub set_prev : ℕ → ℕ → Store → Store
set_prev a b h = record h { prev = update h.prev a b }

pub init_list_head : ℕ → Store → Store
init_list_head list h = set_next list list (set_prev list list h)

pub list_empty : ℕ → Store → Bool
list_empty list h = h.next list == list

pub list_insert : ℕ → ℕ → ℕ → Store → Store
list_insert new prev next h =
    set_prev new prev (set_next new next (set_next prev new (set_prev next new h)))

pub list_add_head : ℕ → ℕ → Store → Store
list_add_head new head h = list_insert new head (h.next head) h

pub list_add_tail : ℕ → ℕ → Store → Store
list_add_tail new head h = list_insert new (h.prev head) head h

-- The second assignment reads what the first has left.
pub list_delete_entry : ℕ → Store → Store
list_delete_entry entry h =
    let h' = set_prev (h.next entry) (h.prev entry) h in set_next (h'.prev entry) (h'.next entry) h'

-- The nodes that `list_for_each_entry` visits from `pos` on, on fuel.
pub visit_from : ℕ → ℕ → ℕ → Store → Option (List ℕ)
visit_from zero head pos h = none
visit_from (suc n) head pos h =
    let rest = visit_from n head (h.next pos) h in
    if pos == head then some [] else elim rest [ none ↦ none | some xs ↦ some (pos ∷ xs) ]

pub list_for_each_entry : ℕ → ℕ → Store → Option (List ℕ)
list_for_each_entry n head h = visit_from n head (h.next head) h

-- The loop of `clear_rtable`, on fuel.
pub clear_rtable : ℕ → ℕ → Store → Option Store
clear_rtable zero head h = none
clear_rtable (suc n) head h =
    let rest = clear_rtable n head (list_delete_entry (h.next head) h) in
    if list_empty head h then some h else rest
