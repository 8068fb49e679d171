-- ===== src/Trie/Simple/Same.antt =====
-- The plain trie against the leaf-pushing trie of EXP11-Lookup/code/leaf_pushing/lookup.c.
use ucas_computer_network.Common.{
  ℕ, zero, suc, ◌≡◌, ◌≢◌, ◌-◌, ◌^◌, All, refl, sym, ap, ◌∙◌, true, false, Option, none, some, List,
  [], ◌∷◌, arith, ◌==◌, Bool-cases, inl, inr,
}
use ucas_computer_network.Trie
use ucas_computer_network.Trie.{RouterEntry, zero_bit}
use ucas_computer_network.Trie.Simple.{
  TreeNode, null, node, as_port, init_tree, look_back, insert_tree, child, add_from, add_node,
  add_all, is_null, break_port, after_break, lookup_from, lookup,
}

abbrev port_or : Option ℕ → ℕ → ℕ
port_or (some p) q = p
port_or none q = q

-- The same nodes; each port of the leaf-pushing trie is the last port on the way to it, from `q` on.
abbrev Like : ℕ → TreeNode → Trie.TreeNode → Type 0
Like q null Trie.null = Unit {0}
Like q null (Trie.node p l r) = ⊥
Like q (node net len p l r) Trie.null = ⊥
Like q (node net len p l r) (Trie.node p' l' r') = (p' ≡ port_or p q) × Like p' l l' × Like p' r r'

module _ (mask_0 : ℕ) where
  -- Whatever the masks are, it is the port that looking back gives.
  after_break-look_back :
      (a i net len : ℕ) (port : Option ℕ) (up : List (Option ℕ))
      → after_break mask_0 a i net (break_port mask_0 a net len port) port up ≡ look_back port up
  unfolding after_break break_port look_back
  after_break-look_back a i net len none up = ground arith
  after_break-look_back a i net len (some p) up = ground arith

  look_back-Like :
      (p p1 : Option ℕ) (up : List (Option ℕ)) (q q1 : ℕ)
      → look_back p up ≡ some q
      → q1 ≡ port_or p1 q
      → look_back p1 (p ∷ up) ≡ some q1
  unfolding look_back
  look_back-Like p none up q q1 h e = h ∙ ap some (sym e)
  look_back-Like p (some x) up q q1 h e = ap some (sym e)

  -- What each trie finds from a node on, whose child on the way is `c`.
  abbrev leaf_step : ℕ → ℕ → ℕ → ℕ → Trie.TreeNode → Option ℕ
  leaf_step a n i q c = elim (Trie.is_null c) [
    | true ↦ some q
    | false ↦ Trie.lookup_from a n (suc i) c
  ]

  abbrev plain_step : ℕ → ℕ → ℕ → ℕ → ℕ → Option ℕ → List (Option ℕ) → TreeNode → Option ℕ
  plain_step a n i net len p up c = elim (is_null c) [
    | true ↦ after_break mask_0 a i net (break_port mask_0 a net len p) p up
    | false ↦ lookup_from mask_0 a n (suc i) (p ∷ up) c
  ]

  step-Like :
      (a n i net len : ℕ) (p : Option ℕ) (up : List (Option ℕ)) (q v : ℕ) (c : TreeNode)
      (c' : Trie.TreeNode)
      → look_back p up ≡ some q
      → Like q c c'
      → leaf_step a n i q c' ≡ some v
      → plain_step a n i net len p up c ≡ some v
  unfolding is_null Trie.is_null lookup_from Trie.lookup_from
  step-Like a n i net len p up q v null Trie.null h like e =
      after_break-look_back a i net len p up ∙ h ∙ e
  step-Like a n i net len p up q v null (Trie.node q1 l' r') h like e = absurd like
  step-Like a n i net len p up q v (node net1 len1 p1 l r) Trie.null h like e = absurd like
  step-Like a zero i net len p up q v (node net1 len1 p1 l r) (Trie.node q1 l' r') h like e = cc
  step-Like a (suc n) i net len p up q v (node net1 len1 p1 l r) (Trie.node q1 l' r') h
        (port, left, right) e =
      let back = look_back-Like p p1 up q q1 h port in
      elim (Bool-cases (zero_bit a (suc i))) [
        | inl on ↦
            rw (on, lookup_from)
              (step-Like a n (suc i) net1 len1 p1 (p ∷ up) q1 v l l' back left
                (sym (rw (on, Trie.lookup_from) refl) ∙ e))
        | inr off ↦
            rw (off, lookup_from)
              (step-Like a n (suc i) net1 len1 p1 (p ∷ up) q1 v r r' back right
                (sym (rw (off, Trie.lookup_from) refl) ∙ e))
      ]

  child-Like :
      (e : RouterEntry) (i q : ℕ) (c : TreeNode) (c' : Trie.TreeNode)
      → e.port ≢ 2 ^ 32 - 1
      → Like q c c'
      → Like q (child mask_0 null e i c) (Trie.child Trie.null e i q c')
  unfolding child Trie.child insert_tree Trie.insert_tree as_port
  child-Like e i q null Trie.null real like = elim (Bool-cases (e.prefix_len == i)) [
    | inl last ↦
        let port : (e.port == 2 ^ 32 - 1) ≡ false = ground (arith, real) in
        rw (last, as_port, port) (refl, tt, tt)
    | inr inner ↦ rw inner (refl, tt, tt)
  ]
  child-Like e i q null (Trie.node q1 l' r') real like = absurd like
  child-Like e i q (node net1 len1 p1 l r) Trie.null real like = absurd like
  child-Like e i q (node net1 len1 p1 l r) (Trie.node q1 l' r') real like = like

  add_from-Like :
      (e : RouterEntry) (n i q : ℕ) (c : TreeNode) (c' : Trie.TreeNode)
      → e.port ≢ 2 ^ 32 - 1
      → Like q c c'
      → Like q (add_from mask_0 null e n i c) (Trie.add_from Trie.null e n i c')
  unfolding add_from Trie.add_from
  add_from-Like e zero i q c c' real like = like
  add_from-Like e (suc n) i q null Trie.null real like = tt
  add_from-Like e (suc n) i q null (Trie.node q1 l' r') real like = absurd like
  add_from-Like e (suc n) i q (node net1 len1 p1 l r) Trie.null real like = absurd like
  add_from-Like e (suc n) i q (node net1 len1 p1 l r) (Trie.node q1 l' r') real
        (port, left, right) =
      elim (Bool-cases (zero_bit e.net i)) [
        | inl on ↦
            rw (on, add_from, Trie.add_from)
              (
                port,
                add_from-Like e n (suc i) q1 _ _ real (child-Like e i q1 l l' real left),
                right,
              )
        | inr off ↦
            rw (off, add_from, Trie.add_from)
              (
                port,
                left,
                add_from-Like e n (suc i) q1 _ _ real (child-Like e i q1 r r' real right),
              )
      ]

  abbrev Rooted : TreeNode → Trie.TreeNode → Type 0
  Rooted (node net len (some p) l r) (Trie.node p' l' r') = (p' ≡ p) × Like p' l l' × Like p' r r'
  Rooted t t' = ⊥

  add_from-Rooted :
      (e : RouterEntry) (n i : ℕ) (t : TreeNode) (t' : Trie.TreeNode)
      → e.port ≢ 2 ^ 32 - 1
      → Rooted t t'
      → Rooted (add_from mask_0 null e n i t) (Trie.add_from Trie.null e n i t')
  unfolding add_from Trie.add_from
  add_from-Rooted e n i null t' real like = absurd like
  add_from-Rooted e n i (node net len none l r) t' real like = absurd like
  add_from-Rooted e n i (node net len (some p) l r) Trie.null real like = absurd like
  add_from-Rooted e zero i (node net len (some p) l r) (Trie.node p' l' r') real like = like
  add_from-Rooted e (suc n) i (node net len (some p) l r) (Trie.node p' l' r') real
        (port, left, right) =
      elim (Bool-cases (zero_bit e.net i)) [
        | inl on ↦
            rw (on, add_from, Trie.add_from)
              (
                port,
                add_from-Like e n (suc i) p' _ _ real (child-Like e i p' l l' real left),
                right,
              )
        | inr off ↦
            rw (off, add_from, Trie.add_from)
              (
                port,
                left,
                add_from-Like e n (suc i) p' _ _ real (child-Like e i p' r r' real right),
              )
      ]

  add_all-Rooted :
      (es : List RouterEntry) (t : TreeNode) (t' : Trie.TreeNode)
      → All (λ e. e.port ≢ 2 ^ 32 - 1) es
      → Rooted t t'
      → Rooted (add_all mask_0 null es t) (Trie.add_all Trie.null es t')
  unfolding add_all Trie.add_all add_node Trie.add_node
  add_all-Rooted [] t t' real like = like
  add_all-Rooted (e ∷ es) t t' (own, real) like =
      add_all-Rooted es _ _ real (add_from-Rooted e e.prefix_len 1 t t' own like)

  from_root :
      (a v n i net len p p' : ℕ) (l r : TreeNode) (l' r' : Trie.TreeNode)
      → p' ≡ p
      → Like p' l l'
      → Like p' r r'
      → Trie.lookup_from a (suc n) i (Trie.node p' l' r') ≡ some v
      → lookup_from mask_0 a (suc n) i [] (node net len (some p) l r) ≡ some v
  unfolding lookup_from Trie.lookup_from look_back
  from_root a v n i net len p p' l r l' r' port left right e = elim (Bool-cases (zero_bit a i)) [
    | inl on ↦
        rw (on, lookup_from)
          (step-Like a n i net len (some p) [] p' v l l' (ap some (sym port)) left
            (sym (rw (on, Trie.lookup_from) refl) ∙ e))
    | inr off ↦
        rw (off, lookup_from)
          (step-Like a n i net len (some p) [] p' v r r' (ap some (sym port)) right
            (sym (rw (off, Trie.lookup_from) refl) ∙ e))
  ]

  lookup-Rooted :
      (a v : ℕ) (t : TreeNode) (t' : Trie.TreeNode)
      → Rooted t t'
      → Trie.lookup a t' ≡ some v
      → lookup mask_0 a t ≡ some v
  unfolding lookup Trie.lookup
  lookup-Rooted a v null t' like e = absurd like
  lookup-Rooted a v (node net len none l r) t' like e = absurd like
  lookup-Rooted a v (node net len (some p) l r) Trie.null like e = absurd like
  lookup-Rooted a v (node net len (some p) l r) (Trie.node p' l' r') (port, left, right) e =
      from_root a v 30 1 net len p p' l r l' r' port left right e

-- Whatever the entries and their order, but for the port -1 and negative prefix lengths, and whatever
-- the mask of the empty prefix: if `malloc` gives memory in which the children of a new node are null, the plain trie finds
-- the port that the leaf-pushing trie finds whenever that finds one: looking back gives what was
-- pushed.
pub lookup-same :
    (mask_0 : ℕ) (fresh : TreeNode) (fresh' : Trie.TreeNode) (es : List RouterEntry) (a v : ℕ)
    → fresh ≡ null
    → fresh' ≡ Trie.null
    → All (λ e. e.port ≢ 2 ^ 32 - 1) es
    → Trie.lookup a (Trie.add_all fresh' es (Trie.init_tree fresh')) ≡ some v
    → lookup mask_0 a (add_all mask_0 fresh es (init_tree fresh)) ≡ some v
unfolding init_tree Trie.init_tree
lookup-same mask_0 fresh fresh' es a v cleared cleared' real e =
    ap (λ x. lookup mask_0 a (add_all mask_0 x es (init_tree x))) cleared
    ∙ lookup-Rooted mask_0 a v _ _ (add_all-Rooted mask_0 es _ _ real (refl, tt, tt))
        (sym (ap (λ x. Trie.lookup a (Trie.add_all x es (Trie.init_tree x))) cleared') ∙ e)
