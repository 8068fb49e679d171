-- ===== src/Links/Path.antt =====
-- Nodes that are linked one after the other.
use ucas_computer_network.Common.{
  ℕ, zero, suc, ◌<◌, ◌≡◌, ◌≢◌, refl, sym, ap, ◌∙◌, false, some, List, [], ◌∷◌, ◌++◌, arith, ◌==◌,
  length, All,
}
use ucas_computer_network.Links.{Store, set_next, set_prev, visit_from, list_for_each_entry}

abbrev pub NotIn : ℕ → List ℕ → Type 0
NotIn a xs = All (λ x. a ≢ x) xs

abbrev pub Distinct : List ℕ → Type 0
Distinct [] = Unit {0}
Distinct (x ∷ xs) = NotIn x xs × Distinct xs

-- From node `p` one comes to each of the nodes in turn, and back.
abbrev pub Linked : Store → ℕ → List ℕ → Type 0
Linked h p [] = Unit {0}
Linked h p (x ∷ xs) = (h.next p ≡ x) × (h.prev x ≡ p) × Linked h x xs

-- The list at `head` holds these nodes, in this order.
pub record Holds (h : Store) (head : ℕ) (xs : List ℕ) : Type 0 where
  pub linked : Linked h head (xs ++ head ∷ [])
  pub distinct : Distinct (head ∷ xs)

abbrev pub last : ℕ → List ℕ → ℕ
last p [] = p
last p (x ∷ xs) = last x xs

-- The nodes that one leaves on the way.
abbrev pub sources : ℕ → List ℕ → List ℕ
sources p [] = []
sources p (x ∷ xs) = p ∷ sources x xs

pub Linked-append :
    (h : Store) (p : ℕ) (xs ys : List ℕ)
    → Linked h p xs
    → Linked h (last p xs) ys
    → Linked h p (xs ++ ys)
Linked-append h p [] ys a b = b
Linked-append h p (x ∷ xs) ys (next, prev, a) b = (next, prev, Linked-append h x xs ys a b)

pub Linked-front : (h : Store) (p : ℕ) (xs ys : List ℕ) → Linked h p (xs ++ ys) → Linked h p xs
Linked-front h p [] ys a = tt
Linked-front h p (x ∷ xs) ys (next, prev, a) = (next, prev, Linked-front h x xs ys a)

pub Linked-rest :
    (h : Store) (p : ℕ) (xs ys : List ℕ) → Linked h p (xs ++ ys) → Linked h (last p xs) ys
Linked-rest h p [] ys a = a
Linked-rest h p (x ∷ xs) ys (next, prev, a) = Linked-rest h x xs ys a

-- A write to a node that is not left, or not come to, changes nothing.
pub Linked-set_next :
    (h : Store) (p : ℕ) (xs : List ℕ) (a b : ℕ)
    → NotIn a (sources p xs)
    → Linked h p xs
    → Linked (set_next a b h) p xs
Linked-set_next h p [] a b out l = tt
Linked-set_next h p (x ∷ xs) a b (ne, out) (next, prev, l) =
    (ground (arith, ne, next), prev, Linked-set_next h x xs a b out l)

pub Linked-set_prev :
    (h : Store) (p : ℕ) (xs : List ℕ) (a b : ℕ)
    → NotIn a xs
    → Linked h p xs
    → Linked (set_prev a b h) p xs
Linked-set_prev h p [] a b out l = tt
Linked-set_prev h p (x ∷ xs) a b (ne, out) (next, prev, l) =
    (next, ground (arith, ne, prev), Linked-set_prev h x xs a b out l)

pub NotIn-sources : (a p : ℕ) (xs : List ℕ) → a ≢ p → NotIn a xs → NotIn a (sources p xs)
NotIn-sources a p [] ne out = tt
NotIn-sources a p (x ∷ xs) ne (ne', out) = (ne, NotIn-sources a x xs ne' out)

pub NotIn-last : (a p : ℕ) (xs : List ℕ) → a ≢ p → NotIn a xs → a ≢ last p xs
NotIn-last a p [] ne out = ne
NotIn-last a p (x ∷ xs) ne (ne', out) = NotIn-last a x xs ne' out

pub last-sources :
    (p : ℕ) (xs : List ℕ) → NotIn p xs → Distinct xs → NotIn (last p xs) (sources p xs)
last-sources p [] out d = tt
last-sources p (x ∷ xs) (ne, out) (out', d) =
    (λ e. NotIn-last p x xs ne out (sym e), last-sources x xs out' d)

-- The nodes that one leaves on the way to a last one.
pub sources-snoc :
    (a p b : ℕ) (xs : List ℕ) → a ≢ p → NotIn a xs → NotIn a (sources p (xs ++ b ∷ []))
sources-snoc a p b [] ne out = (ne, tt)
sources-snoc a p b (x ∷ xs) ne (ne', out) = (ne, sources-snoc a x b xs ne' out)

-- One way only.
abbrev pub Forward : Store → ℕ → List ℕ → Type 0
Forward h p [] = Unit {0}
Forward h p (x ∷ xs) = (h.next p ≡ x) × Forward h x xs

pub Linked-Forward : (h : Store) (p : ℕ) (xs : List ℕ) → Linked h p xs → Forward h p xs
Linked-Forward h p [] l = tt
Linked-Forward h p (x ∷ xs) (next, _, l) = (next, Linked-Forward h x xs l)

pub Forward-append :
    (h : Store) (p : ℕ) (xs ys : List ℕ)
    → Forward h p xs
    → Forward h (last p xs) ys
    → Forward h p (xs ++ ys)
Forward-append h p [] ys a b = b
Forward-append h p (x ∷ xs) ys (next, a) b = (next, Forward-append h x xs ys a b)

pub Forward-set_next :
    (h : Store) (p : ℕ) (xs : List ℕ) (a b : ℕ)
    → NotIn a (sources p xs)
    → Forward h p xs
    → Forward (set_next a b h) p xs
Forward-set_next h p [] a b out l = tt
Forward-set_next h p (x ∷ xs) a b (ne, out) (next, l) =
    (ground (arith, ne, next), Forward-set_next h x xs a b out l)

visit-Forward :
    (h : Store) (head p n : ℕ) (xs : List ℕ)
    → Forward h p (xs ++ head ∷ [])
    → NotIn head xs
    → length xs < n
    → visit_from n head (h.next p) h ≡ some xs
unfolding visit_from
visit-Forward h head p zero xs l out lt = absurd (ground (arith, lt))
visit-Forward h head p (suc n) [] (next, l) out lt = ground (arith, next)
visit-Forward h head p (suc n) (x ∷ xs) (next, l) (ne, out) lt =
    let rest = visit-Forward h head x n xs l out (omega (arith, lt)) in
    let off : (x == head) ≡ false = ground (arith, ne) in
    ap (λ pos. visit_from (suc n) head pos h) next ∙ rw (visit_from, off, rest) refl

pub list_for_each_entry-Forward :
    (h : Store) (head n : ℕ) (xs : List ℕ)
    → Forward h head (xs ++ head ∷ [])
    → NotIn head xs
    → length xs < n
    → list_for_each_entry n head h ≡ some xs
unfolding list_for_each_entry
list_for_each_entry-Forward h head n xs l out lt = visit-Forward h head head n xs l out lt

-- The loop visits the nodes in their order, with a round of fuel for each and one more.
pub list_for_each_entry-Holds :
    (h : Store) (head n : ℕ) (xs : List ℕ)
    → Holds h head xs
    → length xs < n
    → list_for_each_entry n head h ≡ some xs
list_for_each_entry-Holds h head n xs l lt =
    list_for_each_entry-Forward h head n xs (Linked-Forward h head (xs ++ head ∷ []) l.linked)
      l.distinct.0 lt
