-- ===== src/Trie/Lines.antt =====
-- The lines of the routing table: line_parser and the loops of main in
-- EXP11-Lookup/code/leaf_pushing/lookup.c, the same in EXP11-Lookup/code/simple/lookup.c.
mod Tests
use ucas_computer_network.Common.{
  ℕ, zero, suc, ◌^◌, ◌<◌, ◌≡◌, ◌≢◌, refl, sym, ap, ◌∙◌, subst, Bool, true, false, Option, none,
  some, List, length, [], ◌∷◌, ◌++◌, map, append-nil, arith, ◌==◌, All, All-map, All-append,
  append-ne-nil, ◌>>=◌,
}
use ucas_computer_network.Text.{strtok, net_parser}
use ucas_computer_network.Text.Words.{
  is_digit, value, Number, ReadsNumbers, Solid, strtok-word, strtok-last,
}
use ucas_computer_network.Text.Address.{
  Dotted, text_of, address_of, IsAddress, net_parser-dotted, text-Solid, text-ne-nil, address-lt,
}
use ucas_computer_network.Trie.{TreeNode, null, RouterEntry, init_tree, add_node, add_all, lookup}
use ucas_computer_network.Trie.Table.{Ordered, LongestPort, add_all-LongestPort}

abbrev pub is_space : ℕ → Bool
is_space c = c == b' '

module _ (atoi : List ℕ → ℕ) where
  -- `none` is a null pointer that is read, or a text that ends too soon.
  pub line_parser : List ℕ → Option RouterEntry
  line_parser line = strtok is_space line >>= λ w. strtok is_space w.1 >>= λ x.
      strtok is_space x.1 >>= λ y. net_parser atoi w.0 >>= λ net.
      some (record { net = net; prefix_len = atoi x.0; port = atoi y.0 })

  -- The loop that fills the trie, on the lines that `fgets` gives.
  pub read_table : TreeNode → List (List ℕ) → TreeNode → Option TreeNode
  read_table fresh [] t = some t
  read_table fresh (line ∷ lines) t =
      line_parser line >>= λ e. read_table fresh lines (add_node fresh e t)

  -- A round of the loop that looks the lines up.
  pub lookup_line : List ℕ → TreeNode → Option ℕ
  lookup_line line t = strtok is_space line >>= λ w. net_parser atoi w.0 >>= λ net. lookup net t

-- A route in text.
pub record TextRoute : Type 0 where
  pub address : Dotted
  pub prefix_len : List ℕ
  pub port : List ℕ

pub line_of : TextRoute → List ℕ
line_of r = text_of r.address ++ b' ' ∷ (r.prefix_len ++ b' ' ∷ (r.port ++ 10 ∷ []))

pub entry_of : TextRoute → RouterEntry
entry_of r = record {
  net = address_of r.address;
  prefix_len = value r.prefix_len;
  port = value r.port;
}

-- `MAXLINE`: a longer line is read in pieces.
abbrev pub maxline : ℕ
maxline = 100

pub record IsRoute (r : TextRoute) : Type 0 where
  pub address : IsAddress r.address
  pub prefix_len : Number r.prefix_len
  pub port : Number r.port
  pub short : length (line_of r) < maxline

digit-is_space : (c : ℕ) → is_digit c ≡ true → is_space c ≡ false
digit-is_space c h = ground arith

number-Solid : (cs : List ℕ) → Number cs → Solid is_space cs
number-Solid cs h =
    All-map (λ c. is_digit c ≡ true) (λ c. is_space c ≡ false) cs digit-is_space h.digits

module _ (atoi : List ℕ → ℕ) (reads : ReadsNumbers atoi) where
  pub line_parser-line :
      (r : TextRoute) → IsRoute r → line_parser atoi (line_of r) ≡ some (entry_of r)
  unfolding line_parser line_of entry_of
  line_parser-line r h =
      let last = r.port ++ 10 ∷ [] in
      let rest = r.prefix_len ++ b' ' ∷ last in
      let address =
        strtok-word is_space (text_of r.address) rest b' '
          (text-Solid is_space r.address digit-is_space refl h.address)
          (text-ne-nil r.address h.address) refl in
      let len =
        strtok-word is_space r.prefix_len last b' ' (number-Solid r.prefix_len h.prefix_len)
          h.prefix_len.some_digit refl in
      let port =
        strtok-last is_space last
          (All-append (λ c. is_space c ≡ false) r.port (10 ∷ []) (number-Solid r.port h.port)
            (refl, tt))
          (append-ne-nil r.port (10 ∷ []) h.port.some_digit) in
      let len_is : atoi r.prefix_len ≡ value r.prefix_len =
        ap atoi (sym (append-nil r.prefix_len)) ∙ reads r.prefix_len [] h.prefix_len tt in
      rw
        (
          address,
          len,
          port,
          net_parser-dotted atoi reads r.address h.address,
          len_is,
          reads r.port (10 ∷ []) h.port refl,
        )
        refl

  read_table-lines :
      (rs : List TextRoute) (t : TreeNode)
      → All IsRoute rs
      → read_table atoi null (map line_of rs) t ≡ some (add_all null (map entry_of rs) t)
  unfolding read_table add_all
  read_table-lines [] t h = refl
  read_table-lines (r ∷ rs) t (route, h) =
      rw (read_table, line_parser-line r route)
        (read_table-lines rs (add_node null (entry_of r) t) h)

  lookup_line-address :
      (r : TextRoute) (t : TreeNode)
      → IsRoute r
      → lookup_line atoi (line_of r) t ≡ lookup (address_of r.address) t
  unfolding lookup_line line_of
  lookup_line-address r t h =
      rw
        (
          strtok-word is_space (text_of r.address) _ b' '
              (text-Solid is_space r.address digit-is_space refl h.address)
              (text-ne-nil r.address h.address) refl,
          net_parser-dotted atoi reads r.address h.address,
        )
        refl

-- Reading decimal numbers by `atoi`, and if `malloc` gives memory in which the children of a new node
-- are null, a table of well-formed lines of less than 100 characters, in which no route comes after
-- one whose prefix begins with its own and all have 1 to 30 bits, is read without a fault; each line
-- whose address is looked up in the trie finds the port of the longest prefix in the table that covers
-- it.
pub table-LongestPort :
    (atoi : List ℕ → ℕ) (fresh : TreeNode) (rs : List TextRoute) (r : TextRoute)
    → ReadsNumbers atoi
    → fresh ≡ null
    → All IsRoute rs
    → Ordered [] (map entry_of rs)
    → IsRoute r
    → (t : TreeNode) × (p : ℕ) × (read_table atoi fresh (map line_of rs) (init_tree fresh) ≡ some t)
      × (lookup_line atoi (line_of r) t ≡ some p)
      × LongestPort (map entry_of rs) (address_of r.address) p
table-LongestPort atoi fresh rs r reads cleared routes ordered route =
    let (p, found, longest) =
      add_all-LongestPort (map entry_of rs) (address_of r.address) ordered
        (address-lt r.address route.address) in
    (
      add_all null (map entry_of rs) (init_tree null),
      p,
      ap (λ x. read_table atoi x (map line_of rs) (init_tree x)) cleared
          ∙ read_table-lines atoi reads rs (init_tree null) routes,
      lookup_line-address atoi reads r _ route ∙ found,
      longest,
    )
