-- ===== src/Links/Delete.antt =====
-- Deleting a node, by list_delete_entry of list.h, and all of them, by clear_rtable of rtable.c.
use ucas_computer_network.Common.{
  ℕ, zero, suc, ◌<◌, ◌≡◌, ◌≢◌, refl, sym, ap, ◌∙◌, subst, true, false, some, List, [], ◌∷◌, ◌++◌,
  arith, ◌==◌, length, append-nil, append_assoc,
}
use ucas_computer_network.Links.{
  Store, set_next, set_prev, list_delete_entry, list_empty, clear_rtable,
}
use ucas_computer_network.Links.Path.{
  NotIn, Distinct, Linked, Holds, last, sources, Linked-append, Linked-front, Linked-rest,
  Linked-set_next, Linked-set_prev, last-sources, sources-snoc,
}
use ucas_computer_network.Links.Insert.{NotIn-snoc}

-- By the neighbours of the node.
pub delete-by :
    (h : Store) (entry p q : ℕ)
    → h.next entry ≡ q
    → h.prev entry ≡ p
    → entry ≢ q
    → list_delete_entry entry h ≡ set_next p q (set_prev q p h)
unfolding list_delete_entry
delete-by h entry p q next prev ne =
    let h₁ = set_prev (h.next entry) (h.prev entry) h in
    let kept : h₁.prev entry ≡ p = ground (arith, ne, next, prev) in
    ap (λ x. set_next x (h.next entry) h₁) kept
    ∙ ap (λ x. set_next p x (set_prev x (h.prev entry) h)) next
    ∙ ap (λ y. set_next p q (set_prev q y h)) prev

-- Between two nodes that are linked to it.
delete-Linked :
    (h : Store) (entry a q : ℕ) (xs zs : List ℕ)
    → entry ≢ q
    → NotIn (last a xs) (sources a xs)
    → NotIn (last a xs) (sources q zs)
    → NotIn q xs
    → NotIn q zs
    → Linked h a (xs ++ entry ∷ q ∷ zs)
    → Linked (list_delete_entry entry h) a (xs ++ q ∷ zs)
delete-Linked h entry a q xs zs ne p_xs p_zs q_xs q_zs l =
    let p = last a xs in
    let (_, prev, (next, _, rest)) = Linked-rest h a xs (entry ∷ q ∷ zs) l in
    let h₁ = set_prev q p h in
    let front =
      Linked-set_next h₁ a xs p q p_xs
        (Linked-set_prev h a xs q p q_xs (Linked-front h a xs (entry ∷ q ∷ zs) l)) in
    let back = Linked-set_next h₁ q zs p q p_zs (Linked-set_prev h q zs q p q_zs rest) in
    subst (λ h'. Linked h' a (xs ++ q ∷ zs)) (sym (delete-by h entry p q next prev ne))
      (Linked-append (set_next p q h₁) a xs (q ∷ zs) front (ground arith, ground arith, back))

pub NotIn-front : (a : ℕ) (xs ys : List ℕ) → NotIn a (xs ++ ys) → NotIn a xs
NotIn-front a [] ys h = tt
NotIn-front a (x ∷ xs) ys (ne, h) = (ne, NotIn-front a xs ys h)

pub NotIn-rest : (a : ℕ) (xs ys : List ℕ) → NotIn a (xs ++ ys) → NotIn a ys
NotIn-rest a [] ys h = h
NotIn-rest a (x ∷ xs) ys (ne, h) = NotIn-rest a xs ys h

NotIn-without : (a e : ℕ) (xs ys : List ℕ) → NotIn a (xs ++ e ∷ ys) → NotIn a (xs ++ ys)
NotIn-without a e [] ys (ne, h) = h
NotIn-without a e (x ∷ xs) ys (ne, h) = (ne, NotIn-without a e xs ys h)

Distinct-front : (xs ys : List ℕ) → Distinct (xs ++ ys) → Distinct xs
Distinct-front [] ys d = tt
Distinct-front (x ∷ xs) ys (out, d) = (NotIn-front x xs ys out, Distinct-front xs ys d)

Distinct-rest : (xs ys : List ℕ) → Distinct (xs ++ ys) → Distinct ys
Distinct-rest [] ys d = d
Distinct-rest (x ∷ xs) ys (out, d) = Distinct-rest xs ys d

Distinct-without : (e : ℕ) (xs ys : List ℕ) → Distinct (xs ++ e ∷ ys) → Distinct (xs ++ ys)
Distinct-without e [] ys (out, d) = d
Distinct-without e (x ∷ xs) ys (out, d) = (NotIn-without x e xs ys out, Distinct-without e xs ys d)

-- A later node is not among the earlier ones.
pub earlier : (xs ys : List ℕ) (a : ℕ) → Distinct (xs ++ a ∷ ys) → NotIn a xs
earlier [] ys a d = tt
earlier (x ∷ xs) ys a (out, d) =
    let (ne, _) = NotIn-rest x xs (a ∷ ys) out in ((λ e. ne (sym e)), earlier xs ys a d)

last-NotIn :
    (a : ℕ) (xs ys : List ℕ) → NotIn a (xs ++ ys) → Distinct (xs ++ ys) → NotIn (last a xs) ys
last-NotIn a [] ys out d = out
last-NotIn a (x ∷ xs) ys (ne, out) (out', d) = last-NotIn x xs ys out' d

-- Deleting a node of a list leaves the others, in their order.
pub list_delete_entry-Holds :
    (h : Store) (entry head : ℕ) (xs ys : List ℕ)
    → Holds h head (xs ++ entry ∷ ys)
    → Holds (list_delete_entry entry h) head (xs ++ ys)
list_delete_entry-Holds h entry head xs [] l =
    let (out, d) = l.distinct in
    let (ne, _) = NotIn-rest head xs (entry ∷ []) out in
    record {
      linked =
          subst (λ zs. Linked (list_delete_entry entry h) head (zs ++ head ∷ []))
            (sym (append-nil xs))
            (delete-Linked h entry head head xs [] (λ e. ne (sym e))
              (last-sources head xs (NotIn-front head xs (entry ∷ []) out)
                (Distinct-front xs (entry ∷ []) d))
              tt (NotIn-front head xs (entry ∷ []) out) tt
              (subst (Linked h head) (append_assoc xs (entry ∷ []) (head ∷ [])) l.linked));
      distinct = (NotIn-without head entry xs [] out, Distinct-without entry xs [] d);
    }
list_delete_entry-Holds h entry head xs (y ∷ ys) l =
    let (out, d) = l.distinct in
    let front_out = NotIn-front head xs (entry ∷ y ∷ ys) out in
    let (ne, (y_ne, ys_out)) = NotIn-rest head xs (entry ∷ y ∷ ys) out in
    let (entry_out, (y_out, ys_d)) = Distinct-rest xs (entry ∷ y ∷ ys) d in
    let without = Distinct-without entry xs (y ∷ ys) d in
    let (p_y, p_ys) =
      last-NotIn head xs (y ∷ ys) (NotIn-without head entry xs (y ∷ ys) out) without in
    record {
      linked =
          subst (Linked (list_delete_entry entry h) head)
            (sym (append_assoc xs (y ∷ ys) (head ∷ [])))
            (delete-Linked h entry head y xs (ys ++ head ∷ []) entry_out.0
              (last-sources head xs front_out (Distinct-front xs (entry ∷ y ∷ ys) d))
              (sources-snoc (last head xs) y head ys p_y p_ys) (earlier xs ys y without)
              (NotIn-snoc y head ys y_out (λ e. y_ne (sym e)))
              (subst (Linked h head) (append_assoc xs (entry ∷ y ∷ ys) (head ∷ [])) l.linked));
      distinct = (NotIn-without head entry xs (y ∷ ys) out, without);
    }

-- Each round takes the first node away: with a round of fuel for each and one more, the loop ends, and
-- the list is empty.
pub clear_rtable-Holds :
    (n head : ℕ) (xs : List ℕ) (h : Store)
    → Holds h head xs
    → length xs < n
    → (h' : Store) × (clear_rtable n head h ≡ some h') × Holds h' head []
unfolding clear_rtable list_empty
clear_rtable-Holds zero head xs h l lt = absurd (ground (arith, lt))
clear_rtable-Holds (suc n) head [] h l lt =
    let (next, _, _) = l.linked in
    let done : (h.next head == head) ≡ true = ground (arith, next) in (h, rw done refl, l)
clear_rtable-Holds (suc n) head (x ∷ xs) h l lt =
    let (next, _, _) = l.linked in
    let ((ne, _), _) = l.distinct in
    let more : (h.next head == head) ≡ false = ground (arith, next, ne) in
    let (h', is, empty) =
      clear_rtable-Holds n head xs (list_delete_entry x h)
        (list_delete_entry-Holds h x head [] xs l) (omega (arith, lt)) in
    (h', rw (more, next) is, empty)
