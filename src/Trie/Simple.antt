-- ===== src/Trie/Simple.antt =====
-- The plain prefix trie: EXP11-Lookup/code/simple/lookup.c and lookup.h. A port of -1 is none; the
-- parents of a node are the way that leads to it. Compressing the trie is never called.
pub mod Same
mod Tests
use Prim.Native.Nat.{bit_and}
use ucas_computer_network.Common.{
  ℕ, zero, suc, ◌+◌, ◌-◌, ◌^◌, Bool, true, false, Option, none, some, List, [], ◌∷◌, if◌then◌else◌,
  ◌==◌,
}
use ucas_computer_network.Trie.{RouterEntry, zero_bit}

pub data TreeNode : Type 0 where
  null : TreeNode
  node : ℕ → ℕ → Option ℕ → TreeNode → TreeNode → TreeNode

pub is_null : TreeNode → Bool
is_null null = true
is_null (node net len port l r) = false

-- A port of the file, by its 32 bits.
pub as_port : ℕ → Option ℕ
as_port port = if port == 2 ^ 32 - 1 then none else some port

pub init_tree : TreeNode → TreeNode
init_tree fresh = node 0 0 (some 0) fresh fresh

-- From the port of a node and those of the nodes above it.
pub look_back : Option ℕ → List (Option ℕ) → Option ℕ
look_back (some p) up = some p
look_back none [] = none
look_back none (p ∷ up) = look_back p up

-- For the prefix of length 0 the code shifts by -1, which is undefined: any mask.
module _ (mask_0 : ℕ) where
  pub get_mask : ℕ → ℕ
  get_mask len = if len == 0 then mask_0 else 2 ^ 32 - 2 ^ (32 - len)

  -- The node at which that loop ends.
  pub ended : RouterEntry → ℕ → ℕ → TreeNode → TreeNode
  ended e zero i t = t
  ended e (suc n) i null = null
  ended e (suc n) i (node net len port l r) = elim (zero_bit e.net i) [
    | true ↦ ended e n (suc i) l
    | false ↦ ended e n (suc i) r
  ]

  pub same_prefix : ℕ → ℕ → ℕ → Bool
  same_prefix len a b = bit_and a (get_mask len) == bit_and b (get_mask len)

  pub port_at : RouterEntry → TreeNode → Option ℕ
  port_at e null = none
  port_at e (node net len port l r) =
      if same_prefix (e.prefix_len + 1) e.net net then port else none

  -- The port set before the `break` at bit `i`.
  pub break_port : ℕ → ℕ → ℕ → Option ℕ → Option ℕ
  break_port a net len port = if same_prefix len a net then port else none

  -- What follows the loop; `up` has the ports above the node.
  pub after_break : ℕ → ℕ → ℕ → Option ℕ → Option ℕ → List (Option ℕ) → Option ℕ
  after_break a i net port own up = elim (if same_prefix i a net then port else none) [
    | none ↦ look_back own up
    | some p ↦ some p
  ]

  -- The loop of `lookup` at bit `i`, with `n` rounds left. When it ends without a break, `port` is not
  -- set, which matters unless the address has turned off (`none`).
  pub lookup_from : ℕ → ℕ → ℕ → List (Option ℕ) → TreeNode → Option ℕ
  lookup_from a n i up null = none
  lookup_from a zero i up (node net len port l r) =
      if same_prefix i a net then none else look_back port up
  lookup_from a (suc n) i up (node net len port l r) = elim (zero_bit a i) [
    | true ↦ elim (is_null l) [
      | true ↦ after_break a i net (break_port a net len port) port up
      | false ↦ lookup_from a n (suc i) (port ∷ up) l
    ]
    | false ↦ elim (is_null r) [
      | true ↦ after_break a i net (break_port a net len port) port up
      | false ↦ lookup_from a n (suc i) (port ∷ up) r
    ]
  ]

  pub lookup : ℕ → TreeNode → Option ℕ
  lookup a root = lookup_from a 31 1 [] root

-- `left` and `right` of a new node are what malloc gives: `fresh`.
module _ (mask_0 : ℕ) (fresh : TreeNode) where
  pub insert_tree : RouterEntry → ℕ → TreeNode
  insert_tree e p_len =
      node (bit_and e.net (get_mask mask_0 p_len)) p_len
        (if e.prefix_len == p_len then as_port e.port else none) fresh fresh

  pub child : RouterEntry → ℕ → TreeNode → TreeNode
  child e i null = insert_tree e i
  child e i (node net len port l r) = node net len port l r

  -- The loop of `add_node` at bit `i`, with `n` bits left.
  pub add_from : RouterEntry → ℕ → ℕ → TreeNode → TreeNode
  add_from e zero i t = t
  add_from e (suc n) i null = null
  add_from e (suc n) i (node net len port l r) = elim (zero_bit e.net i) [
    | true ↦ node net len port (add_from e n (suc i) (child e i l)) r
    | false ↦ node net len port l (add_from e n (suc i) (child e i r))
  ]

  -- The trie, and what the function returns.
  pub add_node : RouterEntry → TreeNode → TreeNode × Option ℕ
  add_node e root =
      let t = add_from e e.prefix_len 1 root in
      (t, port_at mask_0 e (ended mask_0 e e.prefix_len 1 t))

  -- The loop of `main`.
  pub add_all : List RouterEntry → TreeNode → TreeNode
  add_all [] t = t
  add_all (e ∷ es) t = add_all es (add_node e t).0
