-- ===== src/Links/Tests.antt =====
-- A list at 9 with the nodes 1 and 2.
use ucas_computer_network.Common.{◌≡◌, some, [], ◌∷◌, arith}
use ucas_computer_network.Links.{
  Store, init_list_head, list_add_tail, list_delete_entry, list_for_each_entry, clear_rtable,
}
use ucas_computer_network.Links.Path.{Holds}
use ucas_computer_network.Links.Insert.{init_list_head-Holds, list_add_tail-Holds}
use ucas_computer_network.Links.Delete.{list_delete_entry-Holds, clear_rtable-Holds}
use ucas_computer_network.Links.Timer.{link_timer, unlink_timer, link_timer-stays}

abbrev zeros : Store
zeros = record { next = λ a. 0; prev = λ a. 0 }

abbrev one : Store
one = list_add_tail 1 9 (init_list_head 9 zeros)

abbrev two : Store
two = list_add_tail 2 9 one

one-Holds : Holds one 9 (1 ∷ [])
one-Holds =
    list_add_tail-Holds (init_list_head 9 zeros) 1 9 [] ((λ e. absurd (omega (arith, e))), tt)
      (init_list_head-Holds zeros 9)

two-Holds : Holds two 9 (1 ∷ 2 ∷ [])
two-Holds =
    list_add_tail-Holds one 2 9 (1 ∷ [])
      ((λ e. absurd (omega (arith, e))), ((λ e. absurd (omega (arith, e))), tt)) one-Holds

delete_example : Holds (list_delete_entry 1 two) 9 (2 ∷ [])
delete_example = list_delete_entry-Holds two 1 9 [] (2 ∷ []) two-Holds

clear_example : (h' : Store) × (clear_rtable 3 9 two ≡ some h') × Holds h' 9 []
clear_example = clear_rtable-Holds 3 9 (1 ∷ 2 ∷ []) two two-Holds (omega arith)

timer_example :
    (list_for_each_entry 5 9 (link_timer 1 9 two) ≡ some (1 ∷ []))
    × (list_for_each_entry 5 9 (unlink_timer 1 (link_timer 1 9 two)) ≡ some (1 ∷ []))
timer_example = link_timer-stays two 9 1 5 [] (2 ∷ []) two-Holds (omega arith)
