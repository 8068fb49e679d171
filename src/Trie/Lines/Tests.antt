-- ===== src/Trie/Lines/Tests.antt =====
-- A table of two lines.
use ucas_computer_network.Common.{ℕ, ◌≡◌, refl, some, List, [], ◌∷◌, map, arith}
use ucas_computer_network.Trie.{TreeNode, null, init_tree}
use ucas_computer_network.Trie.Table.{LongestPort}
use ucas_computer_network.Trie.Lines.{
  TextRoute, IsRoute, line_of, entry_of, read_table, lookup_line, table-LongestPort,
}
use ucas_computer_network.Text.{bytes}
use ucas_computer_network.Text.Words.{value_from, all_digits-Number}
use ucas_computer_network.Text.Address.{IsByte, text_of, address_of}
use ucas_computer_network.Text.Decimal.{leading, leading-ReadsNumbers}

-- 128.0.0.0/1 and 192.0.0.0/2.
abbrev zero_text : List ℕ
zero_text = bytes "0"

abbrev wide_route : TextRoute
wide_route = record {
  address = record {
    first = bytes "128";
    second = zero_text;
    third = zero_text;
    fourth = zero_text;
  };
  prefix_len = bytes "1";
  port = bytes "3";
}

abbrev narrow_route : TextRoute
narrow_route = record {
  address = record {
    first = bytes "192";
    second = zero_text;
    third = zero_text;
    fourth = zero_text;
  };
  prefix_len = bytes "2";
  port = bytes "4";
}

zero-IsByte : IsByte zero_text
unfolding value_from
zero-IsByte = (all_digits-Number (bytes "0") refl (λ e. cc) (omega arith), omega arith)

wide-IsRoute : IsRoute wide_route
unfolding value_from line_of text_of
wide-IsRoute = record {
  address = record {
    first = (all_digits-Number (bytes "128") refl (λ e. cc) (omega arith), omega arith);
    second = zero-IsByte;
    third = zero-IsByte;
    fourth = zero-IsByte;
  };
  prefix_len = all_digits-Number (bytes "1") refl (λ e. cc) (omega arith);
  port = all_digits-Number (bytes "3") refl (λ e. cc) (omega arith);
  short = omega arith;
}

narrow-IsRoute : IsRoute narrow_route
unfolding value_from line_of text_of
narrow-IsRoute = record {
  address = record {
    first = (all_digits-Number (bytes "192") refl (λ e. cc) (omega arith), omega arith);
    second = zero-IsByte;
    third = zero-IsByte;
    fourth = zero-IsByte;
  };
  prefix_len = all_digits-Number (bytes "2") refl (λ e. cc) (omega arith);
  port = all_digits-Number (bytes "4") refl (λ e. cc) (omega arith);
  short = omega arith;
}

lines_example :
    (t : TreeNode) × (p : ℕ) × (read_table
        (leading 0)
        null
        (map line_of (wide_route ∷ narrow_route ∷ []))
        (init_tree null)
      ≡ some t)
    × (lookup_line (leading 0) (line_of narrow_route) t ≡ some p)
    × LongestPort
        (map entry_of (wide_route ∷ narrow_route ∷ []))
        (address_of narrow_route.address)
        p
unfolding value_from entry_of address_of
lines_example =
    table-LongestPort (leading 0) null (wide_route ∷ narrow_route ∷ []) narrow_route
      leading-ReadsNumbers refl (wide-IsRoute, (narrow-IsRoute, tt))
      (
        ((omega arith, omega arith, omega arith), tt),
        (((omega arith, omega arith, omega arith), (refl, tt)), tt),
      )
      narrow-IsRoute
