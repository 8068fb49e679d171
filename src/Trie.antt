-- ===== src/Trie.antt =====
-- The leaf-pushing prefix trie: EXP11-Lookup/code/leaf_pushing/lookup.c and lookup.h.
pub mod Insert
pub mod Prefix
pub mod Keeps
pub mod Table
pub mod Simple
pub mod Lines
mod Tests
use ucas_computer_network.Common.{
  ℕ, zero, suc, ◌+◌, ◌-◌, ◌/◌, ◌%◌, ◌^◌, Bool, true, false, Option, none, some, List, [], ◌∷◌,
  if◌then◌else◌, ◌==◌, ltb, ◌||◌,
}

-- `TreeNode`, with the null pointer.
pub data TreeNode : Type 0 where
  null : TreeNode
  node : ℕ → TreeNode → TreeNode → TreeNode

-- With a prefix length that is not negative, and the port by its 32 bits.
pub record RouterEntry : Type 0 where
  pub net : ℕ
  pub prefix_len : ℕ
  pub port : ℕ

-- Whether bit `i` of the address, counted from 1 at the top, is 0; behind the last bit it is.
abbrev pub zero_bit : ℕ → ℕ → Bool
zero_bit net i = ltb 32 i || net / 2 ^ (32 - i) % 2 == 0

-- `left` and `right` of a new node are what malloc gives: `fresh`, for null or a node that they
-- happen to lead to.
module _ (fresh : TreeNode) where
  -- The root, with the default port.
  pub init_tree : TreeNode
  init_tree = node 0 fresh fresh

  pub insert_tree : RouterEntry → ℕ → ℕ → TreeNode
  insert_tree e p_len parent_port =
      node (if e.prefix_len == p_len then e.port else parent_port) fresh fresh

  -- A child that is not there is inserted.
  pub child : RouterEntry → ℕ → ℕ → TreeNode → TreeNode
  child e i port null = insert_tree e i port
  child e i port (node q l r) = node q l r

  -- The loop of `add_node` at bit `i`, with `n` bits left.
  pub add_from : RouterEntry → ℕ → ℕ → TreeNode → TreeNode
  add_from e zero i t = t
  add_from e (suc n) i null = null
  add_from e (suc n) i (node port l r) = elim (zero_bit e.net i) [
    | true ↦ node port (add_from e n (suc i) (child e i port l)) r
    | false ↦ node port l (add_from e n (suc i) (child e i port r))
  ]

  pub add_node : RouterEntry → TreeNode → TreeNode
  add_node e root = add_from e e.prefix_len 1 root

  -- The loop of `main` that fills the trie, in the order of the lines.
  pub add_all : List RouterEntry → TreeNode → TreeNode
  add_all [] t = t
  add_all (e ∷ es) t = add_all es (add_node e t)

pub is_null : TreeNode → Bool
is_null null = true
is_null (node p l r) = false

-- The loop of `lookup` at bit `i`, with `n` rounds left. When it ends without a break, `port` was
-- never set (`none`).
pub lookup_from : ℕ → ℕ → ℕ → TreeNode → Option ℕ
lookup_from net zero i t = none
lookup_from net (suc n) i null = none
lookup_from net (suc n) i (node port l r) = elim (zero_bit net i) [
  | true ↦ elim (is_null l) [ true ↦ some port | false ↦ lookup_from net n (suc i) l ]
  | false ↦ elim (is_null r) [ true ↦ some port | false ↦ lookup_from net n (suc i) r ]
]

-- The loop runs for `i` from 1 to 31.
pub lookup : ℕ → TreeNode → Option ℕ
lookup net root = lookup_from net 31 1 root
