-- ===== src/Links/Timer.antt =====
-- The list of retransmission timers: tcp_set_retrans_timer and tcp_unset_retrans_timer of
-- EXP18-TCP_Stack_4/code/18-tcp_stack/tcp_timer.c. The code never sets the field `enable` of such a
-- timer, so that tcp_update_retrans_timer links a timer that is linked.
use ucas_computer_network.Common.{
  ℕ, ◌+◌, ◌<◌, ◌≡◌, ◌≢◌, refl, sym, ap, ◌∙◌, subst, some, List, [], ◌∷◌, ◌++◌, arith, ◌==◌, length,
  length-append, Bool-cases, inl, inr,
}
use ucas_computer_network.Common.Tables.{update}
use ucas_computer_network.Links.{
  Store, set_next, set_prev, init_list_head, list_insert, list_add_tail, list_delete_entry,
  list_for_each_entry,
}
use ucas_computer_network.Links.Path.{
  NotIn, Distinct, Linked, Linked-front, Holds, last, Forward, Linked-Forward, Forward-append,
  Forward-set_next, list_for_each_entry-Forward, NotIn-last, sources-snoc,
}
use ucas_computer_network.Links.Insert.{prev_is_last, NotIn-snoc}
use ucas_computer_network.Links.Delete.{delete-by, NotIn-front, NotIn-rest, earlier}

-- The pointers that `tcp_set_retrans_timer` writes.
pub link_timer : ℕ → ℕ → Store → Store
link_timer timer timers h = list_add_tail timer timers (init_list_head timer h)

-- `tcp_unset_retrans_timer`
pub unlink_timer : ℕ → Store → Store
unlink_timer timer h = list_delete_entry timer h

regroup :
    (xs : List ℕ) (x : ℕ) (ys : List ℕ) (b : ℕ)
    → (xs ++ x ∷ ys) ++ b ∷ [] ≡ (xs ++ x ∷ []) ++ (ys ++ b ∷ [])
regroup [] x ys b = refl
regroup (y ∷ xs) x ys b = ap (◌∷◌ y) (regroup xs x ys b)

last-append : (a x : ℕ) (xs ys : List ℕ) → last a (xs ++ x ∷ ys) ≡ last x ys
last-append a x [] ys = refl
last-append a x (y ∷ xs) ys = last-append y x xs ys

-- The last node is not among those before `x`.
last_before : (x : ℕ) (zs ys : List ℕ) → Distinct (zs ++ x ∷ ys) → NotIn (last x ys) zs
last_before x [] ys d = tt
last_before x (z ∷ zs) ys (out, d) =
    let (ne, rest) = NotIn-rest z zs (x ∷ ys) out in
    ((λ e. NotIn-last z x ys ne rest (sym e)), last_before x zs ys d)

module _ (h : Store) (timers x : ℕ) (xs ys : List ℕ) (l : Holds h timers (xs ++ x ∷ ys)) where
  ne : x ≢ timers
  ne e = (NotIn-rest timers xs (x ∷ ys) l.distinct.0).0 (sym e)

  x_out : NotIn x xs
  x_out = earlier xs ys x l.distinct.1

  p_out : NotIn (last x ys) (timers ∷ xs)
  p_out = last_before x (timers ∷ xs) ys l.distinct

  front : Forward h timers (xs ++ x ∷ [])
  front = Linked-Forward h timers (xs ++ x ∷ []) (
      Linked-front h timers (xs ++ x ∷ []) (ys ++ timers ∷ [])
        (subst (Linked h timers) (regroup xs x ys timers) l.linked))

  -- What `link_timer` writes.
  linked_store : Store
  linked_store = list_insert x (last x ys) timers (init_list_head x h)

  link_timer-store : link_timer x timers h ≡ linked_store
  unfolding link_timer list_add_tail init_list_head linked_store
  link_timer-store =
      let prev : h.prev timers ≡ last x ys =
        prev_is_last h timers timers (xs ++ x ∷ ys) l.linked ∙ last-append timers x xs ys in
      let kept : update h.prev x x timers ≡ last x ys = ground (arith, ne, prev) in
      ap (λ p. list_insert x p timers (init_list_head x h)) kept

  linked-Forward : Forward linked_store timers (xs ++ x ∷ [])
  unfolding linked_store list_insert init_list_head
  linked-Forward =
      let x_src = sources-snoc x timers x xs ne x_out in
      let p_src = sources-snoc (last x ys) timers x xs p_out.0 p_out.1 in
      let h₀ = set_prev timers x (init_list_head x h) in
      Forward-set_next (set_next (last x ys) x h₀) timers (xs ++ x ∷ []) x timers x_src (
        Forward-set_next h₀ timers (xs ++ x ∷ []) (last x ys) x p_src
          (Forward-set_next h timers (xs ++ x ∷ []) x x x_src front))

  linked_next : linked_store.next x ≡ timers
  unfolding linked_store list_insert init_list_head
  linked_next = ground arith

  linked_prev : linked_store.prev x ≡ last x ys
  unfolding linked_store list_insert init_list_head
  linked_prev = ground arith

-- Linking a timer that is linked, wherever it stands among the timers, cuts off those behind it; and
-- unlinking it then has no effect: the scan of the timers still comes to it, with a round of fuel for
-- each timer up to it and one more.
pub link_timer-stays :
    (h : Store) (timers x n : ℕ) (xs ys : List ℕ)
    → Holds h timers (xs ++ x ∷ ys)
    → length xs + 1 < n
    → (list_for_each_entry n timers (link_timer x timers h) ≡ some (xs ++ x ∷ []))
      × (list_for_each_entry n timers (unlink_timer x (link_timer x timers h))
          ≡ some (xs ++ x ∷ []))
unfolding unlink_timer
link_timer-stays h timers x n xs ys l lt =
    let h' = linked_store h timers x xs ys l in
    let p = last x ys in
    let next = linked_next h timers x xs ys l in
    let store = link_timer-store h timers x xs ys l in
    let to_x = linked-Forward h timers x xs ys l in
    let (p_ne, p_xs) = p_out h timers x xs ys l in
    let size : length (xs ++ x ∷ []) < n = omega (arith, length-append xs (x ∷ []), lt) in
    let timers_out =
      NotIn-snoc timers x xs (NotIn-front timers xs (x ∷ ys) l.distinct.0)
        (λ e. ne h timers x xs ys l (sym e)) in
    let gone =
      delete-by h' x p timers next (linked_prev h timers x xs ys l) (ne h timers x xs ys l) in
    let after = set_next p timers (set_prev timers p h') in
    let to_x' =
      Forward-set_next h' timers (xs ++ x ∷ []) p timers (sources-snoc p timers x xs p_ne p_xs)
        to_x in
    let last_is : last timers (xs ++ x ∷ []) ≡ x = last-append timers x xs [] in
    let next' : after.next x ≡ timers = elim (Bool-cases (x == p)) [
      | inl same ↦ ground (arith, same)
      | inr other ↦ ground (arith, other, next)
    ] in
    (
      ap (list_for_each_entry n timers) store
          ∙ list_for_each_entry-Forward h' timers n (xs ++ x ∷ [])
              (Forward-append h' timers (xs ++ x ∷ []) (timers ∷ []) to_x
                (ap h'.next last_is ∙ next, tt))
              timers_out size,
      ap (λ s. list_for_each_entry n timers (list_delete_entry x s)) store
          ∙ ap (list_for_each_entry n timers) gone
          ∙ list_for_each_entry-Forward after timers n (xs ++ x ∷ [])
              (Forward-append after timers (xs ++ x ∷ []) (timers ∷ []) to_x'
                (ap after.next last_is ∙ next', tt))
              timers_out size,
    )
