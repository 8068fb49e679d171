-- ===== src/Ospf/Routes/Round.antt =====
-- What holds after each round of Dijkstra's algorithm.
use ucas_computer_network.Common.{
  ℕ, ◌+◌, ◌<◌, ◌≤◌, ◌≡◌, ◌≢◌, ◌⊎◌, inl, inr, ap, sym, ◌∙◌, subst, true, false, some, arith, ◌==◌,
  Bool-cases,
}
use ucas_computer_network.Common.Tables.{update}
use ucas_computer_network.Ospf.Routes.{Graph, Search, far}
use ucas_computer_network.Ospf.Routes.Relax.{Relaxed}

-- A walk from node 0 over nodes below `n`, to a node, of a length.
pub data Walk (g : Graph) (n : ℕ) : ℕ → ℕ → Type 0 where
  begin : Walk g n 0 0
  extend : {u v d : ℕ} → Walk g n u d → v < n → Walk g n v (d + g u v)

-- What holds after each round.
pub record Inv (g : Graph) (n : ℕ) (s : Search) : Type 0 where
  pub settled : (u v : ℕ) → s.visited u ≡ true → v < n → s.dist v ≤ s.dist u + g u v
  pub order : (u v : ℕ) → s.visited u ≡ true → v < n → s.visited v ≡ false → s.dist u ≤ s.dist v
  pub capped : (v : ℕ) → s.dist v ≤ far
  pub start : s.dist 0 ≡ 0
  pub reached : (v : ℕ) → s.dist v < far → Walk g n v (s.dist v)
  pub came :
      (v u : ℕ) → s.prev v ≡ some u → (s.visited u ≡ true) × (u < n) × (s.dist v ≡ s.dist u + g u v)
  pub rooted : (v : ℕ) → s.dist v < far → v ≢ 0 → (u : ℕ) × (s.prev v ≡ some u)

abbrev pub mark : Search → ℕ → Search
mark s u = record s { visited = update s.visited u true }

visited-mark : (s : Search) (u x : ℕ) → (mark s u).visited x ≡ true → (x ≡ u) ⊎ (s.visited x ≡ true)
visited-mark s u x h = elim (Bool-cases (x == u)) [
  | inl on ↦ inl (ground (arith, on))
  | inr off ↦ inr (ground (arith, off, h))
]

visited-keep : (s : Search) (u x : ℕ) → s.visited x ≡ true → (mark s u).visited x ≡ true
visited-keep s u x h = ground (arith, h)

pub visited-new : (s : Search) (u : ℕ) → (mark s u).visited u ≡ true
visited-new s u = ground arith

unvisited-mark : (s : Search) (u v : ℕ) → (mark s u).visited v ≡ false → s.visited v ≡ false
unvisited-mark s u v h = ground (arith, h)

module _ (g : Graph) (n u : ℕ) (s s' : Search) (inv : Inv g n s) (under : u < n)
    (free : s.visited u ≡ false)
    (least : (v : ℕ) → v < n → s.visited v ≡ false → s.dist u ≤ s.dist v)
    (r : Relaxed g u n (mark s u) s') where
  -- A visited node keeps its distance.
  fixed : (x : ℕ) → (mark s u).visited x ≡ true → s'.dist x ≡ s.dist x
  fixed x shut = elim (r.each x) [
    | inl up ↦ absurd (ground (arith, up.unvisited, shut))
    | inr kept ↦ kept.dist_is
  ]

  -- No visited node is farther than `u`.
  nearer : (x : ℕ) → (mark s u).visited x ≡ true → s.dist x ≤ s.dist u
  nearer x shut = elim (visited-mark s u x shut) [
    | inl eq ↦ omega (arith, ap s.dist eq)
    | inr old ↦ inv.order x u old under free
  ]

  settled' : (x v : ℕ) → (mark s u).visited x ≡ true → v < n → s'.dist v ≤ s.dist x + g x v
  settled' x v shut lt = elim (visited-mark s u x shut) [
    | inl eq ↦ rw eq (elim (r.each v) [
      | inl up ↦ omega (arith, up.dist_is)
      | inr kept ↦ elim (Bool-cases ((mark s u).visited v)) [
        | inl seen ↦ omega (arith, kept.dist_is, nearer v seen)
        | inr new ↦ omega (arith, kept.dist_is, kept.no_shorter lt new)
      ]
    ])
    | inr old ↦ elim (r.each v) [
      | inl up ↦ omega (arith, up.dist_is, up.shorter, inv.settled x v old lt)
      | inr kept ↦ omega (arith, kept.dist_is, inv.settled x v old lt)
    ]
  ]

  order' :
      (x v : ℕ)
      → (mark s u).visited x ≡ true
      → v < n
      → (mark s u).visited v ≡ false
      → s.dist x ≤ s'.dist v
  order' x v shut lt new =
      let far_v : s.dist u ≤ s.dist v = least v lt (unvisited-mark s u v new) in
      elim (r.each v) [
        | inl up ↦ omega (arith, up.dist_is, nearer x shut)
        | inr kept ↦ omega (arith, kept.dist_is, nearer x shut, far_v)
      ]

  reached' : (v : ℕ) → s'.dist v < far → Walk g n v (s'.dist v)
  reached' v lt = elim (r.each v) [
    | inl up ↦
        let near_u : s.dist u < far = omega (arith, up.dist_is, lt) in
        subst (Walk g n v) (sym up.dist_is) (extend (inv.reached u near_u) up.under)
    | inr kept ↦
        subst (Walk g n v) (sym kept.dist_is) (inv.reached v (omega (arith, kept.dist_is, lt)))
  ]

  came' :
      (v x : ℕ)
      → s'.prev v ≡ some x
      → ((mark s u).visited x ≡ true) × (x < n) × (s'.dist v ≡ s'.dist x + g x v)
  came' v x from = elim (r.each v) [
    | inl up ↦
        let eq : u ≡ x = cc (from, up.prev_is) in
        subst (λ y. ((mark s u).visited y ≡ true) × (y < n) × (s'.dist v ≡ s'.dist y + g y v)) eq
          (
            visited-new s u,
            under,
            up.dist_is ∙ ap (λ d. d + g u v) (sym (fixed u (visited-new s u))),
          )
    | inr kept ↦
        let (old, lt, is) = inv.came v x (sym kept.prev_is ∙ from) in
        let shut = visited-keep s u x old in
        (shut, lt, omega (arith, kept.dist_is, is, fixed x shut))
  ]

  rooted' : (v : ℕ) → s'.dist v < far → v ≢ 0 → (x : ℕ) × (s'.prev v ≡ some x)
  rooted' v lt ne = elim (r.each v) [
    | inl up ↦ (u, up.prev_is)
    | inr kept ↦
        let (x, from) = inv.rooted v (omega (arith, kept.dist_is, lt)) ne in
        (x, kept.prev_is ∙ from)
  ]

  pub round-Inv : Inv g n s'
  round-Inv = record {
    settled = λ x v shut lt.
        let shut' = sym (r.same x) ∙ shut in omega (arith, settled' x v shut' lt, fixed x shut');
    order = λ x v shut lt new.
        let shut' = sym (r.same x) ∙ shut in
        omega (arith, order' x v shut' lt (sym (r.same v) ∙ new), fixed x shut');
    capped = λ v. elim (r.each v) [
      | inl up ↦ omega (arith, up.dist_is, up.shorter, inv.capped v)
      | inr kept ↦ omega (arith, kept.dist_is, inv.capped v)
    ];
    start = elim (r.each 0) [
      | inl up ↦ absurd (omega (arith, up.shorter, inv.start))
      | inr kept ↦ kept.dist_is ∙ inv.start
    ];
    reached = reached';
    came = λ v x from. let (shut, lt, is) = came' v x from in (r.same x ∙ shut, lt, is);
    rooted = rooted';
  }
