-- ===== src/Trie/Simple/Tests.antt =====
-- The plain trie at two routes, the longer one first.
use ucas_computer_network.Common.{◌≡◌, refl, some, none, [], ◌∷◌, arith}
use ucas_computer_network.Trie
use ucas_computer_network.Trie.{RouterEntry}
use ucas_computer_network.Trie.Simple.{
  null, as_port, init_tree, look_back, get_mask, insert_tree, child, add_from, ended, same_prefix,
  port_at, add_node, add_all, is_null, break_port, after_break, lookup_from, lookup,
}
use ucas_computer_network.Trie.Simple.Same.{lookup-same}

abbrev wide : RouterEntry
wide = record { net = 0x80000000; prefix_len = 1; port = 3 }

abbrev narrow : RouterEntry
narrow = record { net = 0xc0000000; prefix_len = 2; port = 4 }

-- The shorter prefix has its node already, which keeps having no port.
returned : (add_node 0 null wide (add_all 0 null (narrow ∷ []) (init_tree null))).1 ≡ none
unfolding as_port init_tree get_mask insert_tree child add_from ended same_prefix port_at add_node
    add_all
returned = refl

leaf :
    Trie.lookup 0x81000000 (Trie.add_all Trie.null (narrow ∷ wide ∷ []) (Trie.init_tree Trie.null))
    ≡ some 0
unfolding Trie.lookup Trie.add_all Trie.add_node Trie.lookup_from Trie.add_from Trie.child
    Trie.insert_tree Trie.is_null Trie.init_tree
leaf = refl

same_example : lookup 0 0x81000000 (add_all 0 null (narrow ∷ wide ∷ []) (init_tree null)) ≡ some 0
same_example =
    lookup-same 0 null Trie.null (narrow ∷ wide ∷ []) 0x81000000 0 refl refl
      ((λ e. absurd (omega (arith, e))), ((λ e. absurd (omega (arith, e))), tt)) leaf

plain : lookup 0 0xc1000000 (add_all 0 null (narrow ∷ wide ∷ []) (init_tree null)) ≡ some 4
unfolding as_port init_tree get_mask insert_tree child add_from ended same_prefix port_at add_node
    add_all is_null break_port after_break lookup_from lookup look_back
plain = refl
