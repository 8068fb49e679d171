-- ===== src/Trie/Keeps.antt =====
-- What an insertion leaves as it is: addresses that the entry does not cover, and prefixes that are
-- not in the trie.
use ucas_computer_network.Common.{
  ℕ, zero, suc, ◌+◌, ◌<◌, ◌≤◌, ◌≡◌, ◌≢◌, refl, sym, ap, ◌∙◌, Bool, true, false, Option, some, arith,
  if◌then◌else◌, ◌==◌, Bool-cases, inl, inr, ◌⊎◌,
}
use ucas_computer_network.Trie.{
  TreeNode, null, node, RouterEntry, zero_bit, insert_tree, child, add_from, is_null, lookup_from,
}
use ucas_computer_network.Trie.Insert.{absent, Agree, absent-side, lookup-add_same, null_side}

-- What the lookup gives when it comes to a child, from a node with that port.
below : ℕ → ℕ → ℕ → ℕ → TreeNode → Option ℕ
below a m i port null = some port
below a m i port (node q l r) = lookup_from a m (suc i) (node q l r)

lookup-below :
    (a m i port : ℕ) (l r : TreeNode)
    → lookup_from a (suc m) i (node port l r) ≡ below a m i port (if zero_bit a i then l else r)
unfolding lookup_from below is_null
lookup-below a m i port null null = ground arith
lookup-below a m i port null (node q l r) = ground arith
lookup-below a m i port (node q l r) null = ground arith
lookup-below a m i port (node q l r) (node q' l' r') = ground arith

-- An address that turns off at this bit.
lookup-add_off :
    (e : RouterEntry) (a m n i port : ℕ) (l r : TreeNode)
    → zero_bit a i ≢ zero_bit e.net i
    → lookup_from a m i (add_from null e n i (node port l r)) ≡ lookup_from a m i (node port l r)
unfolding lookup_from add_from
lookup-add_off e a zero n i port l r off = refl
lookup-add_off e a (suc m) zero i port l r off = refl
lookup-add_off e a (suc m) (suc n) i port l r off = elim (Bool-cases (zero_bit e.net i)) [
  | inl left ↦ elim (Bool-cases (zero_bit a i)) [
    | inl on ↦ absurd (off (on ∙ sym left))
    | inr turn ↦ rw (left, add_from) (rw (turn, lookup_from) refl)
  ]
  | inr right ↦ elim (Bool-cases (zero_bit a i)) [
    | inl turn ↦ rw (right, add_from) (rw (turn, lookup_from) refl)
    | inr on ↦ absurd (off (on ∙ sym right))
  ]
]

Bool-eq : (b c : Bool) → (b ≡ c) ⊎ (b ≢ c)
Bool-eq true true = inl refl
Bool-eq true false = inr (λ e. cc)
Bool-eq false true = inr (λ e. cc)
Bool-eq false false = inl refl

keep_child :
    (e : RouterEntry) (a m n i port : ℕ) (c : TreeNode)
    → n < m
    → i + n ≡ e.prefix_len
    → (Agree a e.net n (suc i) → ⊥)
    → lookup_from a m (suc i) (add_from null e n (suc i) (child null e i port c))
      ≡ below a m i port c
unfolding child insert_tree below
keep_child e a m zero i port c k len out = absurd (out tt)
keep_child e a zero (suc n) i port c k len out = absurd (omega arith)
keep_child e a (suc m) (suc n) i port null k len out =
    let inner : (e.prefix_len == i) ≡ false = ground arith in
    rw inner (elim (Bool-eq (zero_bit a (suc i)) (zero_bit e.net (suc i))) [
      | inl same ↦
          lookup-add_same e a m n (suc i) port null null same
          ∙ keep_child e a m n (suc i) port (if zero_bit e.net (suc i) then null else null)
              (omega arith) (omega arith) (λ g. out (same, g))
          ∙ rw (null_side (zero_bit e.net (suc i))) refl
      | inr off ↦
          lookup-add_off e a (suc m) (suc n) (suc i) port null null off
          ∙ lookup-below a m (suc i) port null null
          ∙ rw (null_side (zero_bit a (suc i))) refl
    ])
keep_child e a (suc m) (suc n) i port (node q l r) k len out =
    elim (Bool-eq (zero_bit a (suc i)) (zero_bit e.net (suc i))) [
      | inl same ↦
          lookup-add_same e a m n (suc i) q l r same
          ∙ keep_child e a m n (suc i) q (if zero_bit e.net (suc i) then l else r) (omega arith)
              (omega arith) (λ g. out (same, g))
          ∙ ap (λ b. below a m (suc i) q (if b then l else r)) (sym same)
          ∙ sym (lookup-below a m (suc i) q l r)
      | inr off ↦ lookup-add_off e a (suc m) (suc n) (suc i) q l r off
    ]

-- An address that does not begin with the entry's prefix finds what it found before.
pub lookup_from-keep :
    (e : RouterEntry) (a q : ℕ) (l r : TreeNode)
    → e.prefix_len ≤ 30
    → (Agree a e.net e.prefix_len 1 → ⊥)
    → lookup_from a 31 1 (add_from null e e.prefix_len 1 (node q l r))
      ≡ lookup_from a 31 1 (node q l r)
unfolding child below
lookup_from-keep e a q l r len out =
    keep_child e a 31 e.prefix_len 0 0 (node q l r) (omega arith) (omega arith) out

-- One round of the descent to a prefix after an insertion.
absent-add_same :
    (d e : RouterEntry) (n m i port : ℕ) (l r : TreeNode)
    → zero_bit d.net i ≡ zero_bit e.net i
    → absent d (suc n) i (add_from null e (suc m) i (node port l r))
      ≡ absent d n
          (suc i)
          (add_from null e m (suc i) (child null e i port (if zero_bit d.net i then l else r)))
unfolding absent add_from
absent-add_same d e n m i port l r h = elim (Bool-cases (zero_bit e.net i)) [
  | inl left ↦ rw (left, add_from) (rw (h ∙ left, absent) refl)
  | inr right ↦ rw (right, add_from) (rw (h ∙ right, absent) refl)
]

absent-add_off :
    (d e : RouterEntry) (n m i port : ℕ) (l r : TreeNode)
    → zero_bit d.net i ≢ zero_bit e.net i
    → absent d (suc n) i (add_from null e m i (node port l r)) ≡ absent d (suc n) i (node port l r)
unfolding absent add_from
absent-add_off d e n zero i port l r off = refl
absent-add_off d e n (suc m) i port l r off = elim (Bool-cases (zero_bit e.net i)) [
  | inl left ↦ elim (Bool-cases (zero_bit d.net i)) [
    | inl on ↦ absurd (off (on ∙ sym left))
    | inr turn ↦ rw (left, add_from) (rw (turn, absent) refl)
  ]
  | inr right ↦ elim (Bool-cases (zero_bit d.net i)) [
    | inl turn ↦ rw (right, add_from) (rw (turn, absent) refl)
    | inr on ↦ absurd (off (on ∙ sym right))
  ]
]

pub absent-leaf : (d : RouterEntry) (n i port : ℕ) → absent d (suc n) i (node port null null) ≡ true
unfolding absent
absent-leaf d n i port = ground arith

absent_child :
    (d e : RouterEntry) (n m i port : ℕ) (c : TreeNode)
    → absent d n (suc i) c ≡ true
    → (n ≤ m → Agree d.net e.net n (suc i) → ⊥)
    → absent d n (suc i) (add_from null e m (suc i) (child null e i port c)) ≡ true
unfolding child insert_tree add_from
absent_child d e zero m i port c h out = absurd (out (omega arith) tt)
absent_child d e (suc n) zero i port null h out = absent-leaf d n (suc i) _
absent_child d e (suc n) zero i port (node q l r) h out = h
absent_child d e (suc n) (suc m) i port null h out =
    elim (Bool-eq (zero_bit d.net (suc i)) (zero_bit e.net (suc i))) [
      | inl same ↦
          absent-add_same d e n m (suc i) _ null null same
          ∙ absent_child d e n m (suc i) _ (if zero_bit d.net (suc i) then null else null)
              (absent-side d n (suc i) 0 null null (absent-leaf d n (suc i) 0))
              (λ le g. out (omega arith) (same, g))
      | inr off ↦ absent-add_off d e n (suc m) (suc i) _ null null off ∙ absent-leaf d n (suc i) _
    ]
absent_child d e (suc n) (suc m) i port (node q l r) h out =
    elim (Bool-eq (zero_bit d.net (suc i)) (zero_bit e.net (suc i))) [
      | inl same ↦
          absent-add_same d e n m (suc i) q l r same
          ∙ absent_child d e n m (suc i) q (if zero_bit d.net (suc i) then l else r)
              (absent-side d n (suc i) q l r h) (λ le g. out (omega arith) (same, g))
      | inr off ↦ absent-add_off d e n (suc m) (suc i) q l r off ∙ h
    ]

-- A prefix that is not in the trie and that the entry does not begin with is not put in.
pub absent-add_from :
    (d e : RouterEntry) (q : ℕ) (l r : TreeNode)
    → absent d d.prefix_len 1 (node q l r) ≡ true
    → (d.prefix_len ≤ e.prefix_len → Agree d.net e.net d.prefix_len 1 → ⊥)
    → absent d d.prefix_len 1 (add_from null e e.prefix_len 1 (node q l r)) ≡ true
unfolding child
absent-add_from d e q l r h out = absent_child d e d.prefix_len e.prefix_len 0 0 (node q l r) h out
