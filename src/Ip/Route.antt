-- ===== src/Ip/Route.antt =====
-- Longest prefix match.
use ucas_computer_network.Common.{
  ℕ, ◌≤◌, ◌≡◌, ◌⊎◌, inl, inr, refl, true, false, Option, none, some, List, [], ◌∷◌, arith, ltb, All,
  Bool-cases, sym, subst,
}
use ucas_computer_network.Ip.{RtEntry, matches, is_longer, select_from, longest_prefix_match}

abbrev pub In : RtEntry → List RtEntry → Type 0
In e [] = ⊥
In e (f ∷ fs) = (e ≡ f) ⊎ In e fs

-- An entry that does not match, or whose mask is no larger than `m`.
abbrev pub NoLonger : ℕ → ℕ → RtEntry → Type 0
NoLonger dst m f = (matches dst f ≡ false) ⊎ (f.mask ≤ m)

-- What the match is: none if no entry matches; else an entry of the table that matches, and that
-- no entry that matches exceeds.
abbrev pub Longest : List RtEntry → ℕ → Option RtEntry → Type 0
Longest rtable dst none = All (λ f. matches dst f ≡ false) rtable
Longest rtable dst (some e) =
    In e rtable × (matches dst e ≡ true) × All (NoLonger dst e.mask) rtable

-- The loop, from a selected entry on.
abbrev Selects : RtEntry → List RtEntry → ℕ → Option RtEntry → Type 0
Selects s es dst none = ⊥
Selects s es dst (some e) =
    ((e ≡ s) ⊎ (In e es × (matches dst e ≡ true)))
    × (s.mask ≤ e.mask)
    × All (NoLonger dst e.mask) es

Selects-skip :
    (s e : RtEntry) (es : List RtEntry) (dst : ℕ) (o : Option RtEntry)
    → NoLonger dst s.mask e
    → Selects s es dst o
    → Selects s (e ∷ es) dst o
Selects-skip s e es dst none n h = h
Selects-skip s e es dst (some r) n (inl q, le, all) = (inl q, le, (ground (arith, n), all))
Selects-skip s e es dst (some r) n (inr (i, m), le, all) =
    (inr (inr i, m), le, (ground (arith, n), all))

Selects-take :
    (s e : RtEntry) (es : List RtEntry) (dst : ℕ) (o : Option RtEntry)
    → matches dst e ≡ true
    → s.mask ≤ e.mask
    → Selects e es dst o
    → Selects s (e ∷ es) dst o
Selects-take s e es dst none m l h = h
Selects-take s e es dst (some r) m l (inl q, le, all) =
    (inr (inl q, subst (λ x. matches dst x ≡ true) (sym q) m), omega arith, (inr le, all))
Selects-take s e es dst (some r) m l (inr (i, n), le, all) =
    (inr (inr i, n), omega arith, (inr le, all))

select_from-Selects :
    (s : RtEntry) (es : List RtEntry) (dst : ℕ) → Selects s es dst (select_from (some s) es dst)
unfolding select_from is_longer
select_from-Selects s [] dst = (inl refl, omega arith, tt)
select_from-Selects s (e ∷ es) dst = elim (Bool-cases (matches dst e)) [
  | inr miss ↦
      rw (miss, select_from) (Selects-skip s e es dst _ (inl miss) (select_from-Selects s es dst))
  | inl hit ↦ elim (Bool-cases (ltb s.mask e.mask)) [
    | inl longer ↦
        rw (hit, longer, select_from)
          (Selects-take s e es dst _ hit (ground arith) (select_from-Selects e es dst))
    | inr shorter ↦
        rw (hit, shorter, select_from)
          (Selects-skip s e es dst _ (inr (ground arith)) (select_from-Selects s es dst))
  ]
]

Longest-take :
    (e : RtEntry) (es : List RtEntry) (dst : ℕ) (o : Option RtEntry)
    → matches dst e ≡ true
    → Selects e es dst o
    → Longest (e ∷ es) dst o
Longest-take e es dst none m h = absurd h
Longest-take e es dst (some r) m (inl q, le, all) =
    (inl q, subst (λ x. matches dst x ≡ true) (sym q) m, (inr le, all))
Longest-take e es dst (some r) m (inr (i, n), le, all) = (inr i, n, (inr le, all))

Longest-skip :
    (e : RtEntry) (es : List RtEntry) (dst : ℕ) (o : Option RtEntry)
    → matches dst e ≡ false
    → Longest es dst o
    → Longest (e ∷ es) dst o
Longest-skip e es dst none m h = (m, h)
Longest-skip e es dst (some r) m (i, n, all) = (inr i, n, (inl m, all))

-- `longest_prefix_match` gives no entry if none matches the address, and else an entry of the table
-- that matches it and has the largest mask of all that do.
pub longest_prefix_match-Longest :
    (rtable : List RtEntry) (dst : ℕ) → Longest rtable dst (longest_prefix_match rtable dst)
unfolding longest_prefix_match select_from is_longer
longest_prefix_match-Longest [] dst = tt
longest_prefix_match-Longest (e ∷ es) dst = elim (Bool-cases (matches dst e)) [
  | inl hit ↦
      rw (hit, longest_prefix_match, select_from)
        (Longest-take e es dst _ hit (select_from-Selects e es dst))
  | inr miss ↦
      rw (miss, longest_prefix_match, select_from)
        (Longest-skip e es dst _ miss (longest_prefix_match-Longest es dst))
]
