-- ===== src/Stp/Root.antt =====
-- `update_root` of stp.c: which port it takes as the root port, and which it misses.
use ucas_computer_network.Common.{
  ℕ, suc, ◌-◌, ◌≤◌, ◌≡◌, ◌≢◌, ◌↔◌, ◌⊎◌, inl, inr, refl, true, false, not, none, some, List, [], ◌∷◌,
  arith, All, length, get_elem?, if◌then◌else◌, Bool-cases,
}
use ucas_computer_network.Stp.Priority.{
  IsWordCost, NoWorse, NoWorse-refl, NoWorse-trans, port_key, compare-lex_lt, lex_lt-asymm,
}
use ucas_computer_network.Stp.{
  Stp, StpPort, Entry, compare_ports_pirority, scan_ports, select_root, non_designated_from,
  stp_port_is_designated,
}

abbrev pub but_last : List Entry → List Entry
but_last [] = []
but_last (e ∷ []) = []
but_last (e ∷ f ∷ es) = e ∷ but_last (f ∷ es)

abbrev pub Among : Entry → List Entry → Type 0
Among r [] = ⊥
Among r (e ∷ es) = (r ≡ e) ⊎ Among r es

-- Each port is no better than the one after it.
abbrev pub Falling : List Entry → Type 0
Falling [] = Unit
Falling (e ∷ []) = Unit
Falling (e ∷ f ∷ es) = NoWorse f.1 e.1 × Falling (f ∷ es)

abbrev pub WordCosts : List Entry → Type 0
WordCosts = All (λ e. IsWordCost e.1)

better :
    (a b : StpPort) → IsWordCost a → IsWordCost b → compare_ports_pirority a b ≡ false → NoWorse a b
better a b ha hb e =
    ground (arith, compare-lex_lt a b ha hb, lex_lt-asymm (port_key a) (port_key b))

not_better :
    (a b : StpPort) → IsWordCost a → IsWordCost b → compare_ports_pirority a b ≡ true → NoWorse b a
not_better a b ha hb e = ground (arith, compare-lex_lt a b ha hb)

-- Once a port is assigned, the scan ends with the best of it and of all ports but the last.
scan_some :
    (r : Entry) (es : List Entry) {r' : Entry}
    → IsWordCost r.1
    → WordCosts es
    → scan_ports (some r) es ≡ some r'
    → NoWorse r'.1 r.1 × All (λ e. NoWorse r'.1 e.1) (but_last es) × ((r' ≡ r) ⊎ Among r' es)
unfolding scan_ports
scan_some r [] {r'} hr hs e = let q : r' ≡ r = cc in (rw q (NoWorse-refl r.1), tt, inl q)
scan_some r (a ∷ []) {r'} hr hs e = let q : r' ≡ r = cc in (rw q (NoWorse-refl r.1), tt, inl q)
scan_some r (a ∷ b ∷ es) {r'} hr hs e = elim (Bool-cases (compare_ports_pirority a.1 r.1)) [
  | inl worse ↦
      let (h, k, m) = scan_some r (b ∷ es) {r' = r'} hr hs.1 (rw worse at e) in
      (h, (NoWorse-trans r'.1 r.1 a.1 h (not_better a.1 r.1 hs.0 hr worse), k), ground arith)
  | inr wins ↦
      let (h, k, m) = scan_some a (b ∷ es) {r' = r'} hs.0 hs.1 (rw wins at e) in
      (NoWorse-trans r'.1 a.1 r.1 h (better a.1 r.1 hs.0 hr wins), (h, k), ground arith)
]

-- Before that the ports pass in falling order, and each is no better than the one first assigned.
scan_none :
    (es : List Entry) {r : Entry}
    → WordCosts es
    → scan_ports none es ≡ some r
    → All (λ e. NoWorse r.1 e.1) (but_last es) × Among r es
unfolding scan_ports
scan_none [] hs e = cc
scan_none (a ∷ []) hs e = cc
scan_none (a ∷ b ∷ es) {r} hs e = elim (Bool-cases (compare_ports_pirority a.1 b.1)) [
  | inl worse ↦
      let e' : scan_ports none (b ∷ es) ≡ some r = rw (worse, scan_ports) at e in
      let (k, m) = scan_none (b ∷ es) {r = r} hs.1 e' in
      let h = before a b es r (not_better a.1 b.1 hs.0 hs.1.0 worse) e' k in ((h, k), inr m)
  | inr wins ↦
      let (h, k, m) = scan_some a (b ∷ es) {r' = r} hs.0 hs.1 (rw (wins, scan_ports) at e) in
      ((h, k), ground arith)
]
  where
    before :
        (a b : Entry) (es : List Entry) (r : Entry)
        → NoWorse b.1 a.1
        → scan_ports none (b ∷ es) ≡ some r
        → All (λ e. NoWorse r.1 e.1) (but_last (b ∷ es))
        → NoWorse r.1 a.1
    before a b [] r h e k = cc
    before a b (c ∷ es) r h e k = NoWorse-trans r.1 b.1 a.1 k.0 h

scan_some-ne-none : (r : Entry) (es : List Entry) → scan_ports (some r) es ≢ none
unfolding scan_ports
scan_some-ne-none r [] e = cc
scan_some-ne-none r (a ∷ []) e = cc
scan_some-ne-none r (a ∷ b ∷ es) e =
    scan_some-ne-none (if not (compare_ports_pirority a.1 r.1) then a else r) (b ∷ es) e

-- No port is assigned exactly when the ports pass in falling order.
scan_none-Falling : (es : List Entry) → WordCosts es → (scan_ports none es ≡ none) ↔ Falling es
unfolding scan_ports
scan_none-Falling [] hs = (λ _. tt, λ _. refl)
scan_none-Falling (a ∷ []) hs = (λ _. tt, λ _. refl)
scan_none-Falling (a ∷ b ∷ es) hs = elim (Bool-cases (compare_ports_pirority a.1 b.1)) [
  | inl worse ↦
      let rest = scan_none-Falling (b ∷ es) hs.1 in
      (
        λ e. (not_better a.1 b.1 hs.0 hs.1.0 worse, rest.0 (rw (worse, scan_ports) at e)),
        λ f. rw (worse, scan_ports) (rest.1 f.1),
      )
  | inr wins ↦ (
    λ e. absurd (scan_some-ne-none a (b ∷ es) (rw (wins, scan_ports) at e)),
    λ f. ground (arith, compare-lex_lt a.1 b.1 hs.0 hs.1.0),
  )
]

-- The port that `update_root` assigns, for word costs: it is one of the switch's non-designated
-- ports, and no worse than each of them but the last.
pub select_root-best :
    (es : List Entry) {r : Entry}
    → WordCosts es
    → select_root es ≡ some r
    → All (λ e. NoWorse r.1 e.1) (but_last es) × Among r es
unfolding select_root
select_root-best [] hs e = scan_none [] hs e
select_root-best (a ∷ []) hs e = (tt, inl (cc))
select_root-best (a ∷ b ∷ es) hs e = scan_none (a ∷ b ∷ es) hs e

-- It assigns none exactly when there is not one port and they pass in falling order.
pub select_root-Falling :
    (es : List Entry) → WordCosts es → length es ≢ 1 → (select_root es ≡ none) ↔ Falling es
unfolding select_root
select_root-Falling [] hs n = scan_none-Falling [] hs
select_root-Falling (a ∷ []) hs n = absurd (n refl)
select_root-Falling (a ∷ b ∷ es) hs n = scan_none-Falling (a ∷ b ∷ es) hs

-- The entries are the ports that are not designated, under their indices.
abbrev pub IsEntry : Stp → List StpPort → ℕ → Entry → Type 0
IsEntry stp ps i e =
    (i ≤ e.0) × (get_elem? ps (e.0 - i) ≡ some e.1) × (stp_port_is_designated stp e.1 ≡ false)

shift_entries :
    (stp : Stp) (p : StpPort) (ps : List StpPort) (i : ℕ) (es : List Entry)
    → All (IsEntry stp ps (suc i)) es
    → All (IsEntry stp (p ∷ ps) i) es
shift_entries stp p ps i [] h = tt
shift_entries stp p ps i (e ∷ es) h =
    ((omega arith, rw k h.0.1, h.0.2), shift_entries stp p ps i es h.1)
  where
    k : e.0 - i ≡ suc (e.0 - suc i)
    k = omega (arith, h.0.0)

pub non_designated-IsEntry :
    (stp : Stp) (i : ℕ) (ps : List StpPort) → All (IsEntry stp ps i) (non_designated_from stp i ps)
unfolding non_designated_from
non_designated-IsEntry stp i [] = tt
non_designated-IsEntry stp i (p ∷ ps) =
    let rest = shift_entries stp p ps i _ (non_designated-IsEntry stp (suc i) ps) in
    let same : i - i ≡ 0 = omega arith in
    elim (Bool-cases (stp_port_is_designated stp p)) [
      | inl d ↦ rw d rest
      | inr n ↦ rw n ((omega arith, rw same refl, n), rest)
    ]

pub non_designated-WordCosts :
    (stp : Stp) (i : ℕ) (ps : List StpPort)
    → All IsWordCost ps
    → WordCosts (non_designated_from stp i ps)
unfolding non_designated_from
non_designated-WordCosts stp i [] h = tt
non_designated-WordCosts stp i (p ∷ ps) h = elim (Bool-cases (stp_port_is_designated stp p)) [
  | inl d ↦ rw d (non_designated-WordCosts stp (suc i) ps h.1)
  | inr n ↦ rw n (h.0, non_designated-WordCosts stp (suc i) ps h.1)
]
