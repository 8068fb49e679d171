-- ===== src/Trie/Insert.antt =====
-- What an insertion changes.
use ucas_computer_network.Common.{
  ℕ, zero, suc, ◌+◌, ◌<◌, ◌≤◌, ◌≡◌, refl, Bool, true, false, none, some, arith, if◌then◌else◌, ◌==◌,
  Bool-cases, inl, inr, ◌∙◌,
}
use ucas_computer_network.Trie.{
  TreeNode, null, node, RouterEntry, zero_bit, insert_tree, child, add_from, add_node, is_null,
  lookup_from, lookup,
}

-- The trie has no node at the end of the entry's prefix.
unfoldable pub absent : RouterEntry → ℕ → ℕ → TreeNode → Bool
absent e n i null = true
absent e zero i (node port l r) = false
absent e (suc n) i (node port l r) = elim (zero_bit e.net i) [
  | true ↦ absent e n (suc i) l
  | false ↦ absent e n (suc i) r
]

-- The addresses have the same `n` bits from bit `i` on.
abbrev pub Agree : ℕ → ℕ → ℕ → ℕ → Type 0
Agree a b zero i = Unit {0}
Agree a b (suc n) i = (zero_bit a i ≡ zero_bit b i) × Agree a b n (suc i)

is_null-add_from :
    (e : RouterEntry) (n i j p : ℕ) (c : TreeNode)
    → is_null (add_from null e n i (child null e j p c)) ≡ false
unfolding is_null add_from child insert_tree
is_null-add_from e zero i j p null = refl
is_null-add_from e zero i j p (node q l r) = refl
is_null-add_from e (suc n) i j p null = ground arith
is_null-add_from e (suc n) i j p (node q l r) = ground arith

-- One round of the lookup after an insertion, for an address with the same bit.
pub lookup-add_same :
    (e : RouterEntry) (a m n i port : ℕ) (l r : TreeNode)
    → zero_bit a i ≡ zero_bit e.net i
    → lookup_from a (suc m) i (add_from null e (suc n) i (node port l r))
      ≡ lookup_from a m
          (suc i)
          (add_from null e n (suc i) (child null e i port (if zero_bit e.net i then l else r)))
unfolding lookup_from add_from
lookup-add_same e a m n i port l r h = elim (Bool-cases (zero_bit e.net i)) [
  | inl left ↦
      rw (left, add_from)
        (rw (h ∙ left, lookup_from) (rw (is_null-add_from e n (suc i) i port l) refl))
  | inr right ↦
      rw (right, add_from)
        (rw (h ∙ right, lookup_from) (rw (is_null-add_from e n (suc i) i port r) refl))
]

pub lookup_from-null : (a m i port : ℕ) → lookup_from a (suc m) i (node port null null) ≡ some port
unfolding lookup_from is_null
lookup_from-null a m i port = ground arith

pub absent-side :
    (e : RouterEntry) (n i port : ℕ) (l r : TreeNode)
    → absent e (suc n) i (node port l r) ≡ true
    → absent e n (suc i) (if zero_bit e.net i then l else r) ≡ true
unfolding absent
absent-side e n i port l r h = elim (Bool-cases (zero_bit e.net i)) [
  | inl left ↦ rw left (ground (arith, h, left))
  | inr right ↦ rw right (ground (arith, h, right))
]

pub null_side : (b : Bool) → (if b then null else null) ≡ null
null_side true = refl
null_side false = refl

-- Below the bit `i`, whose child may be missing.
hit_child :
    (e : RouterEntry) (a m n i port : ℕ) (c : TreeNode)
    → absent e n (suc i) c ≡ true
    → Agree a e.net n (suc i)
    → i + n ≡ e.prefix_len
    → n < m
    → lookup_from a m (suc i) (add_from null e n (suc i) (child null e i port c)) ≡ some e.port
unfolding child insert_tree add_from absent
hit_child e a zero n i port c h g len k = absurd (omega arith)
hit_child e a (suc m) zero i port (node q l r) h g len k = cc
hit_child e a (suc m) zero i port null h g len k =
    let last : (e.prefix_len == i) ≡ true = ground arith in
    rw last (lookup_from-null a m (suc i) e.port)
hit_child e a (suc m) (suc n) i port null h g len k =
    lookup-add_same e a m n (suc i) (if e.prefix_len == i then e.port else port) null null g.0
    ∙ hit_child e a m n (suc i) _ (if zero_bit e.net (suc i) then null else null)
        (rw (null_side (zero_bit e.net (suc i))) refl) g.1 (omega arith) (omega arith)
hit_child e a (suc m) (suc n) i port (node q l r) h g len k =
    lookup-add_same e a m n (suc i) q l r g.0
    ∙ hit_child e a m n (suc i) q (if zero_bit e.net (suc i) then l else r)
        (absent-side e n (suc i) q l r h) g.1 (omega arith) (omega arith)

-- An entry of at most 30 bits whose node is not in the trie yet is found, after its insertion, by
-- every address that begins with its prefix.
pub lookup-add_node :
    (e : RouterEntry) (a : ℕ) (root : TreeNode)
    → is_null root ≡ false
    → e.prefix_len ≤ 30
    → absent e e.prefix_len 1 root ≡ true
    → Agree a e.net e.prefix_len 1
    → lookup a (add_node null e root) ≡ some e.port
unfolding lookup add_node is_null child
lookup-add_node e a null f len h g = cc
lookup-add_node e a (node q l r) f len h g =
    hit_child e a 31 e.prefix_len 0 0 (node q l r) h g (omega arith) (omega arith)

deep_child :
    (e : RouterEntry) (m n i port : ℕ) (c : TreeNode)
    → m ≤ n
    → lookup_from e.net m (suc i) (add_from null e n (suc i) (child null e i port c)) ≡ none
unfolding child insert_tree lookup_from
deep_child e zero n i port c k = refl
deep_child e (suc m) zero i port c k = absurd (omega arith)
deep_child e (suc m) (suc n) i port null k =
    lookup-add_same e e.net m n (suc i) (if e.prefix_len == i then e.port else port) null null refl
    ∙ deep_child e m n (suc i) _ _ (omega arith)
deep_child e (suc m) (suc n) i port (node q l r) k =
    lookup-add_same e e.net m n (suc i) q l r refl ∙ deep_child e m n (suc i) q _ (omega arith)

-- After the insertion of an entry of 31 bits or more, whatever the trie, the lookup of the entry's
-- own address returns a port that was never set.
pub lookup-unset :
    (e : RouterEntry) (root : TreeNode)
    → is_null root ≡ false
    → 31 ≤ e.prefix_len
    → lookup e.net (add_node null e root) ≡ none
unfolding lookup add_node is_null child
lookup-unset e null f len = cc
lookup-unset e (node q l r) f len = deep_child e 31 e.prefix_len 0 0 (node q l r) len
