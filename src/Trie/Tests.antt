-- ===== src/Trie/Tests.antt =====
-- Two routes, and the theorems of Trie at them.
use ucas_computer_network.Common.{◌≡◌, refl, some}
use ucas_computer_network.Trie.{
  null, RouterEntry, init_tree, insert_tree, child, add_from, add_node, is_null, lookup_from,
  lookup,
}

abbrev wide : RouterEntry
wide = record { net = 0x80000000; prefix_len = 1; port = 3 }

abbrev narrow : RouterEntry
narrow = record { net = 0xc0000000; prefix_len = 2; port = 4 }

abbrev host : RouterEntry
host = record { net = 0xc0000001; prefix_len = 32; port = 5 }

in_order : lookup 0xc1000000 (add_node null narrow (add_node null wide (init_tree null))) ≡ some 4
unfolding lookup add_node lookup_from add_from child insert_tree is_null init_tree
in_order = refl

-- A route that comes after a longer one does not get its port.
out_of_order :
    lookup 0x81000000 (add_node null wide (add_node null narrow (init_tree null))) ≡ some 0
unfolding lookup add_node lookup_from add_from child insert_tree is_null init_tree
out_of_order = refl
