-- ===== src/Links/Insert.antt =====
-- Adding a node, by list_insert, list_add_head and list_add_tail of list.h.
use ucas_computer_network.Common.{
  ℕ, ◌≡◌, ◌≢◌, sym, subst, List, [], ◌∷◌, ◌++◌, arith, All-append, append_assoc,
}
use ucas_computer_network.Links.{
  Store, set_next, set_prev, init_list_head, list_insert, list_add_head, list_add_tail,
}
use ucas_computer_network.Links.Path.{
  NotIn, Distinct, Linked, Holds, last, sources, Linked-append, Linked-front, Linked-rest,
  Linked-set_next, Linked-set_prev, NotIn-sources, NotIn-last, last-sources, sources-snoc,
}

-- The writes of `list_insert new p q` leave a way alone that does not leave `p` or `new`, and does
-- not come to `q` or `new`.
pub Linked-insert :
    (h : Store) (new p q a : ℕ) (xs : List ℕ)
    → NotIn p (sources a xs)
    → NotIn new (sources a xs)
    → NotIn q xs
    → NotIn new xs
    → Linked h a xs
    → Linked (list_insert new p q h) a xs
unfolding list_insert
Linked-insert h new p q a xs out_p out_new out_q out_new' l =
    let h₁ = set_prev q new h in
    let h₂ = set_next p new h₁ in
    let h₃ = set_next new q h₂ in
    Linked-set_prev h₃ a xs new p out_new' (
      Linked-set_next h₂ a xs new q out_new
        (Linked-set_next h₁ a xs p new out_p (Linked-set_prev h a xs q new out_q l)))

-- The new node itself.
new-Linked :
    (h : Store) (new p q : ℕ) → new ≢ p → new ≢ q → Linked (list_insert new p q h) p (new ∷ q ∷ [])
unfolding list_insert
new-Linked h new p q ne_p ne_q =
    (ground (arith, ne_p), ground arith, (ground arith, ground (arith, ne_q), tt))

-- Between two nodes that are linked.
pub insert-Linked :
    (h : Store) (new a q : ℕ) (xs zs : List ℕ)
    → new ≢ a
    → NotIn new xs
    → NotIn new (q ∷ zs)
    → NotIn (last a xs) (sources a xs)
    → NotIn (last a xs) (sources q zs)
    → NotIn q xs
    → NotIn q zs
    → Linked h a (xs ++ q ∷ zs)
    → Linked (list_insert new (last a xs) q h) a (xs ++ new ∷ q ∷ zs)
insert-Linked h new a q xs zs ne new_xs (ne_q, new_zs) p_xs p_zs q_xs q_zs l =
    let h' = list_insert new (last a xs) q h in
    let p = last a xs in
    let front =
      Linked-insert h new p q a xs p_xs (NotIn-sources new a xs ne new_xs) q_xs new_xs
        (Linked-front h a xs (q ∷ zs) l) in
    let (_, _, rest) = Linked-rest h a xs (q ∷ zs) l in
    let back =
      Linked-insert h new p q q zs p_zs (NotIn-sources new q zs ne_q new_zs) q_zs new_zs rest in
    let (n₁, n₂, (n₃, n₄, _)) = new-Linked h new p q (NotIn-last new a xs ne new_xs) ne_q in
    Linked-append h' a xs (new ∷ q ∷ zs) front (n₁, n₂, (n₃, n₄, back))

pub NotIn-snoc : (a b : ℕ) (xs : List ℕ) → NotIn a xs → a ≢ b → NotIn a (xs ++ b ∷ [])
NotIn-snoc a b xs out ne = All-append (λ x. a ≢ x) xs (b ∷ []) out (ne, tt)

pub Distinct-snoc : (b : ℕ) (xs : List ℕ) → Distinct xs → NotIn b xs → Distinct (xs ++ b ∷ [])
Distinct-snoc b [] d out = (tt, tt)
Distinct-snoc b (x ∷ xs) (out', d) (ne, out) =
    (NotIn-snoc x b xs out' (λ e. ne (sym e)), Distinct-snoc b xs d out)

-- The node before the list's head is the last one.
pub prev_is_last :
    (h : Store) (a b : ℕ) (xs : List ℕ) → Linked h a (xs ++ b ∷ []) → h.prev b ≡ last a xs
prev_is_last h a b [] (next, prev, l) = prev
prev_is_last h a b (x ∷ xs) (next, prev, l) = prev_is_last h x b xs l

pub init_list_head-Holds : (h : Store) (head : ℕ) → Holds (init_list_head head h) head []
unfolding init_list_head
init_list_head-Holds h head = record {
  linked = (ground arith, ground arith, tt);
  distinct = (tt, tt);
}

-- Adding a node that is not in the list, nor its head, at the tail puts it behind the nodes that the
-- list holds.
pub list_add_tail-Holds :
    (h : Store) (new head : ℕ) (xs : List ℕ)
    → NotIn new (head ∷ xs)
    → Holds h head xs
    → Holds (list_add_tail new head h) head (xs ++ new ∷ [])
unfolding list_add_tail
list_add_tail-Holds h new head xs (ne, out) l =
    let at = prev_is_last h head head xs l.linked in
    record {
      linked =
          subst (Linked (list_insert new (h.prev head) head h) head)
            (sym (append_assoc xs (new ∷ []) (head ∷ [])))
            (subst (λ p. Linked (list_insert new p head h) head (xs ++ new ∷ head ∷ [])) (sym at)
              (insert-Linked h new head head xs [] ne out (ne, tt)
                (last-sources head xs l.distinct.0 l.distinct.1) tt l.distinct.0 tt l.linked));
      distinct = (
        NotIn-snoc head new xs l.distinct.0 (λ e. ne (sym e)),
        Distinct-snoc new xs l.distinct.1 out,
      );
    }

pub list_add_head-Holds :
    (h : Store) (new head : ℕ) (xs : List ℕ)
    → NotIn new (head ∷ xs)
    → Holds h head xs
    → Holds (list_add_head new head h) head (new ∷ xs)
unfolding list_add_head
list_add_head-Holds h new head [] (ne, out) l = record {
  linked =
      subst (λ q. Linked (list_insert new head q h) head (new ∷ head ∷ [])) (sym l.linked.0)
        (insert-Linked h new head head [] [] ne tt (ne, tt) tt tt tt tt l.linked);
  distinct = ((λ e. ne (sym e), tt), (tt, tt));
}
list_add_head-Holds h new head (x ∷ xs) (ne, out) l =
    let (x_ne, head_out) = l.distinct.0 in
    let (x_out, d) = l.distinct.1 in
    record {
      linked =
          subst (λ q. Linked (list_insert new head q h) head (new ∷ x ∷ (xs ++ head ∷ [])))
            (sym l.linked.0)
            (insert-Linked h new head x [] (xs ++ head ∷ []) ne tt
              (out.0, NotIn-snoc new head xs out.1 ne) tt
              (sources-snoc head x head xs x_ne head_out) tt
              (NotIn-snoc x head xs x_out (λ e. x_ne (sym e))) l.linked);
      distinct = ((λ e. ne (sym e), l.distinct.0), (out, l.distinct.1));
    }
