-- ===== src/Trie/Table.antt =====
-- Lookups in the whole table of EXP11-Lookup/code/leaf_pushing/lookup.c.
use ucas_computer_network.Common.{
  ℕ, zero, suc, ◌+◌, ◌^◌, ◌<◌, ◌≤◌, ◌≡◌, ◌⊎◌, refl, sym, ◌∙◌, subst, Bool, true, false, ◌&&◌, some,
  List, [], ◌∷◌, arith, leb, ◌==◌, Bool-cases, inl, inr, All,
}
use ucas_computer_network.Trie.{
  TreeNode, null, node, RouterEntry, init_tree, add_from, add_node, add_all, is_null, lookup,
}
use ucas_computer_network.Trie.Insert.{absent, Agree, lookup-add_node, lookup_from-null}
use ucas_computer_network.Trie.Prefix.{prefix, prefix-le, Agree-prefix, prefix-Agree}
use ucas_computer_network.Trie.Keeps.{lookup_from-keep, absent-add_from, absent-leaf}

-- Whether the address begins with the prefix of the entry.
abbrev pub covers : RouterEntry → ℕ → Bool
covers e a = prefix e.prefix_len a == prefix e.prefix_len e.net

-- Whether the prefix of `d` begins with that of `e`.
abbrev pub begins : RouterEntry → RouterEntry → Bool
begins e d = leb e.prefix_len d.prefix_len && covers e d.net

abbrev pub IsEntry : RouterEntry → Type 0
IsEntry e = (0 < e.prefix_len) × (e.prefix_len ≤ 30) × (e.net < 2 ^ 32)

-- None of the entries has a prefix that begins with that of `e`.
abbrev pub New : RouterEntry → List RouterEntry → Type 0
New e ds = All (λ d. begins e d ≡ false) ds

-- After the entries `ds`, each of the others comes after all shorter prefixes of its own.
abbrev pub Ordered : List RouterEntry → List RouterEntry → Type 0
Ordered ds [] = Unit {0}
Ordered ds (e ∷ es) = (IsEntry e × New e ds) × Ordered (e ∷ ds) es

abbrev pub In : RouterEntry → List RouterEntry → Type 0
In e [] = ⊥
In e (d ∷ ds) = (e ≡ d) ⊎ In e ds

-- The port of the longest prefix that covers the address; the default port 0 if none does.
abbrev pub LongestPort : List RouterEntry → ℕ → ℕ → Type 0
LongestPort ds a p =
    (All (λ d. covers d a ≡ false) ds × (p ≡ 0))
    ⊎ ((e : RouterEntry) × In e ds
        × (covers e a ≡ true)
        × (p ≡ e.port)
        × All (λ d. (covers d a ≡ false) ⊎ (d.prefix_len ≤ e.prefix_len)) ds)

-- The entries, the last one first.
abbrev pub reverse_onto : List RouterEntry → List RouterEntry → List RouterEntry
reverse_onto [] ds = ds
reverse_onto (e ∷ es) ds = reverse_onto es (e ∷ ds)

record Holds (ds : List RouterEntry) (t : TreeNode) : Type 0 where
  rooted : is_null t ≡ false
  small : All IsEntry ds
  finds : (a : ℕ) → a < 2 ^ 32 → (p : ℕ) × (lookup a t ≡ some p) × LongestPort ds a p
  news : (e : RouterEntry) → IsEntry e → New e ds → absent e e.prefix_len 1 t ≡ true

init-news : (e : RouterEntry) (n : ℕ) → 0 < n → absent e n 1 (node 0 null null) ≡ true
init-news e zero h = absurd (omega (arith, h))
init-news e (suc n) h = absent-leaf e n 1 0

init-Holds : Holds [] (init_tree null)
unfolding init_tree lookup is_null
init-Holds = record {
  rooted = refl;
  small = tt;
  finds = λ a lt. (0, lookup_from-null a 30 1 0, inl (tt, refl));
  news = λ e ok new. init-news e e.prefix_len ok.0;
}

-- No entry that is longer than a new one covers an address that the new one covers.
none_longer :
    (e : RouterEntry) (ds : List RouterEntry) (a : ℕ)
    → covers e a ≡ true
    → All IsEntry ds
    → New e ds
    → All (λ d. (covers d a ≡ false) ⊎ (d.prefix_len ≤ e.prefix_len)) ds
none_longer e [] a c small new = tt
none_longer e (d ∷ ds) a c (ok, small) (off, new) =
    let rest = none_longer e ds a c small new in
    elim (Bool-cases (covers d a)) [
      | inr miss ↦ (inl miss, rest)
      | inl hit ↦ elim (Bool-cases (leb d.prefix_len e.prefix_len)) [
        | inl le ↦ (inr (ground (arith, le)), rest)
        | inr longer ↦
            let le : e.prefix_len ≤ d.prefix_len = ground (arith, longer) in
            let same : prefix d.prefix_len a ≡ prefix d.prefix_len d.net = ground (arith, hit) in
            let own : prefix e.prefix_len a ≡ prefix e.prefix_len e.net = ground (arith, c) in
            let at = prefix-le a d.net d.prefix_len e.prefix_len le (omega (arith, ok)) same in
            absurd (ground (arith, off, le, sym at ∙ own))
      ]
    ]

covers-Agree :
    (a : ℕ) (e : RouterEntry) → IsEntry e → covers e a ≡ true → Agree a e.net e.prefix_len 1
covers-Agree a e ok c =
    let at : e.prefix_len ≡ 0 + e.prefix_len = omega arith in
    prefix-Agree a e.net e.prefix_len 0 (omega (arith, ok))
      (subst (λ x. prefix x a ≡ prefix x e.net) at (ground (arith, c)))

Agree-covers :
    (a : ℕ) (e : RouterEntry)
    → a < 2 ^ 32
    → e.net < 2 ^ 32
    → e.prefix_len ≤ 32
    → Agree a e.net e.prefix_len 1
    → covers e a ≡ true
Agree-covers a e lt lt' len g =
    let same =
      Agree-prefix a e.net e.prefix_len 0 (omega (arith, len)) (omega (arith, lt, lt')) g in
    let same' : prefix e.prefix_len a ≡ prefix e.prefix_len e.net =
      subst (λ x. prefix x a ≡ prefix x e.net) (omega arith) same in
    ground (arith, same')

LongestPort-skip :
    (e : RouterEntry) (ds : List RouterEntry) (a p : ℕ)
    → covers e a ≡ false
    → LongestPort ds a p
    → LongestPort (e ∷ ds) a p
LongestPort-skip e ds a p miss (inl (none_covers, is)) = inl ((miss, none_covers), is)
LongestPort-skip e ds a p miss (inr (d, i, hit, is, all)) = inr (d, inr i, hit, is, (inl miss, all))

add_node-keep :
    (e : RouterEntry) (a : ℕ) (t : TreeNode)
    → is_null t ≡ false
    → IsEntry e
    → a < 2 ^ 32
    → covers e a ≡ false
    → lookup a (add_node null e t) ≡ lookup a t
unfolding lookup add_node is_null
add_node-keep e a null r ok lt miss = cc
add_node-keep e a (node q l r) root ok lt miss =
    lookup_from-keep e a q l r ok.1
      (λ g. let hit = Agree-covers a e lt ok.2 (omega (arith, ok)) g in cc (hit, miss))

Agree-sym : (a b n i : ℕ) → Agree a b n i → Agree b a n i
Agree-sym a b zero i g = tt
Agree-sym a b (suc n) i (bit, g) = (sym bit, Agree-sym a b n (suc i) g)

add_node-new :
    (d e : RouterEntry) (t : TreeNode)
    → is_null t ≡ false
    → IsEntry d
    → IsEntry e
    → begins d e ≡ false
    → absent d d.prefix_len 1 t ≡ true
    → absent d d.prefix_len 1 (add_node null e t) ≡ true
unfolding add_node is_null
add_node-new d e null r ok ok' off h = cc
add_node-new d e (node q l r) root ok ok' off h = absent-add_from d e q l r h (λ le g.
    let hit = Agree-covers e.net d ok'.2 ok.2 (omega (arith, ok)) (Agree-sym d.net e.net _ 1 g) in
    ground (arith, off, le, hit))

add_from-is_null :
    (e : RouterEntry) (n i q : ℕ) (l r : TreeNode)
    → is_null (add_from null e n i (node q l r)) ≡ false
unfolding add_from is_null
add_from-is_null e zero i q l r = refl
add_from-is_null e (suc n) i q l r = ground arith

add_node-is_null :
    (e : RouterEntry) (t : TreeNode) → is_null t ≡ false → is_null (add_node null e t) ≡ false
unfolding add_node is_null
add_node-is_null e null h = cc
add_node-is_null e (node q l r) h = add_from-is_null e e.prefix_len 1 q l r

add_node-Holds :
    (e : RouterEntry) (ds : List RouterEntry) (t : TreeNode)
    → IsEntry e
    → New e ds
    → Holds ds t
    → Holds (e ∷ ds) (add_node null e t)
add_node-Holds e ds t ok new h = record {
  rooted = add_node-is_null e t h.rooted;
  small = (ok, h.small);
  finds = λ a lt. elim (Bool-cases (covers e a)) [
    | inl hit ↦ (
      e.port,
      lookup-add_node e a t h.rooted ok.1 (h.news e ok new) (covers-Agree a e ok hit),
      inr (e, inl refl, hit, refl, (inr (omega arith), none_longer e ds a hit h.small new)),
    )
    | inr miss ↦
        let (p, is, longest) = h.finds a lt in
        (p, add_node-keep e a t h.rooted ok lt miss ∙ is, LongestPort-skip e ds a p miss longest)
  ];
  news = λ d ok' (off, new'). add_node-new d e t h.rooted ok' ok off (h.news d ok' new');
}

add_all-Holds :
    (es ds : List RouterEntry) (t : TreeNode)
    → Ordered ds es
    → Holds ds t
    → Holds (reverse_onto es ds) (add_all null es t)
unfolding add_all
add_all-Holds [] ds t o h = h
add_all-Holds (e ∷ es) ds t ((ok, new), o) h =
    add_all-Holds es (e ∷ ds) (add_node null e t) o (add_node-Holds e ds t ok new h)

All-reverse {κ} :
    (P : RouterEntry → Type κ) (es ds : List RouterEntry)
    → All P (reverse_onto es ds)
    → All P es × All P ds
All-reverse P [] ds h = (tt, h)
All-reverse P (e ∷ es) ds h =
    let (rest, (own, before)) = All-reverse P es (e ∷ ds) h in ((own, rest), before)

In-reverse :
    (d : RouterEntry) (es ds : List RouterEntry) → In d (reverse_onto es ds) → In d es ⊎ In d ds
In-reverse d [] ds h = inr h
In-reverse d (e ∷ es) ds h = elim (In-reverse d es (e ∷ ds) h) [
  | inl later ↦ inl (inr later)
  | inr (inl own) ↦ inl (inl own)
  | inr (inr before) ↦ inr before
]

LongestPort-reverse :
    (es : List RouterEntry) (a p : ℕ) → LongestPort (reverse_onto es []) a p → LongestPort es a p
LongestPort-reverse es a p (inl (miss, is)) = inl ((All-reverse _ es [] miss).0, is)
LongestPort-reverse es a p (inr (e, i, hit, is, all)) = elim (In-reverse e es [] i) [
  | inl there ↦ inr (e, there, hit, is, (All-reverse _ es [] all).0)
  | inr nowhere ↦ absurd nowhere
]

-- When no route comes after one whose prefix begins with its own, and all have 1 to 30 bits, each
-- lookup in the table that is filled in that order gives the port of the longest prefix that covers
-- the address, and the default port if none does.
pub add_all-LongestPort :
    (es : List RouterEntry) (a : ℕ)
    → Ordered [] es
    → a < 2 ^ 32
    → (p : ℕ) × (lookup a (add_all null es (init_tree null)) ≡ some p) × LongestPort es a p
add_all-LongestPort es a o lt =
    let (p, is, longest) = (add_all-Holds es [] (init_tree null) o init-Holds).finds a lt in
    (p, is, LongestPort-reverse es a p longest)
