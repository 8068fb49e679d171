-- ===== src/Ospf/Routes/Relax.antt =====
-- What one round of Dijkstra's algorithm does.
use ucas_computer_network.Common.{
  ℕ, zero, suc, ◌+◌, ◌<◌, ◌≤◌, ◌≡◌, ◌≢◌, ◌⊎◌, inl, inr, refl, ap, ◌∙◌, subst, Bool, true, false,
  not, ◌&&◌, Option, none, some, arith, ltb, ◌==◌, Bool-cases,
}
use ucas_computer_network.Ospf.Routes.{Graph, Search, pick, min_dist, relax_at, relax_upto}

-- `o` is the nearest node below `n` that is not visited; none if all are visited.
abbrev pub Nearest : (ℕ → ℕ) → (ℕ → Bool) → ℕ → Option ℕ → Type 0
Nearest dist visited n none = (v : ℕ) → v < n → visited v ≡ true
Nearest dist visited n (some u) =
    (u < n) × (visited u ≡ false) × ((v : ℕ) → v < n → visited v ≡ false → dist u ≤ dist v)

below : {n v : ℕ} → v < suc n → (v < n) ⊎ (v ≡ n)
below {n} {v} h = elim (Bool-cases (ltb v n)) [
  | inl less ↦ inl (ground (arith, less))
  | inr more ↦ inr (ground (arith, more, h))
]

Nearest-suc :
    (dist : ℕ → ℕ) (visited : ℕ → Bool) (n : ℕ) (o : Option ℕ)
    → Nearest dist visited n o
    → visited n ≡ false
    → Nearest dist visited (suc n) (pick dist o n)
unfolding pick
Nearest-suc dist visited n none h free = (
  omega arith,
  free,
  λ v lt open_v. elim (below lt) [
    | inl less ↦ absurd (ground (arith, h v less, open_v))
    | inr eq ↦ rw eq (omega arith)
  ],
)
Nearest-suc dist visited n (some i) (lt_i, open_i, least) free =
    elim (Bool-cases (ltb (dist n) (dist i))) [
      | inl nearer ↦ rw nearer (
        omega arith,
        free,
        λ v lt open_v. elim (below lt) [
          | inl less ↦ ground (arith, nearer, least v less open_v)
          | inr eq ↦ rw eq (omega arith)
        ],
      )
      | inr farther ↦ rw farther (
        omega (arith, lt_i),
        open_i,
        λ v lt open_v. elim (below lt) [
          | inl less ↦ least v less open_v
          | inr eq ↦ rw eq (ground (arith, farther))
        ],
      )
    ]

Nearest-skip :
    (dist : ℕ → ℕ) (visited : ℕ → Bool) (n : ℕ) (o : Option ℕ)
    → Nearest dist visited n o
    → visited n ≡ true
    → Nearest dist visited (suc n) o
Nearest-skip dist visited n none h shut =
    λ v lt. elim (below lt) [ inl less ↦ h v less | inr eq ↦ rw eq shut ]
Nearest-skip dist visited n (some i) (lt_i, open_i, least) shut = (
  omega (arith, lt_i),
  open_i,
  λ v lt open_v. elim (below lt) [
    | inl less ↦ least v less open_v
    | inr eq ↦ absurd (ground (arith, shut, open_v, ap visited eq))
  ],
)

pub min_dist-Nearest :
    (dist : ℕ → ℕ) (visited : ℕ → Bool) (n : ℕ) → Nearest dist visited n (min_dist dist visited n)
unfolding min_dist
min_dist-Nearest dist visited zero = λ v lt. absurd (omega (arith, lt))
min_dist-Nearest dist visited (suc n) =
    let rest = min_dist-Nearest dist visited n in
    elim (Bool-cases (visited n)) [
      | inl shut ↦ rw shut (Nearest-skip dist visited n _ rest shut)
      | inr free ↦ rw free (Nearest-suc dist visited n _ rest free)
    ]

-- What relaxing the edges of `u` to the nodes below `n` makes of the node `v`.
pub record Updated (g : Graph) (u n : ℕ) (s s' : Search) (v : ℕ) : Type 0 where
  pub under : v < n
  pub unvisited : s.visited v ≡ false
  pub shorter : s.dist u + g u v < s.dist v
  pub dist_is : s'.dist v ≡ s.dist u + g u v
  pub prev_is : s'.prev v ≡ some u

pub record Kept (g : Graph) (u n : ℕ) (s s' : Search) (v : ℕ) : Type 0 where
  pub dist_is : s'.dist v ≡ s.dist v
  pub prev_is : s'.prev v ≡ s.prev v
  pub no_shorter : v < n → s.visited v ≡ false → s.dist v ≤ s.dist u + g u v

pub record Relaxed (g : Graph) (u n : ℕ) (s s' : Search) : Type 0 where
  pub same : (v : ℕ) → s'.visited v ≡ s.visited v
  pub each : (v : ℕ) → Updated g u n s s' v ⊎ Kept g u n s s' v

relax_at-same : (g : Graph) (u k v : ℕ) (s : Search) → (relax_at g u k s).visited v ≡ s.visited v
unfolding relax_at
relax_at-same g u k v s = ground arith

relax_at-other :
    (g : Graph) (u k v : ℕ) (s : Search)
    → v ≢ k
    → ((relax_at g u k s).dist v ≡ s.dist v) × ((relax_at g u k s).prev v ≡ s.prev v)
unfolding relax_at
relax_at-other g u k v s h = ground (arith, h)

-- A node whose turn has not come, or is over.
each-other :
    (g : Graph) (u k v : ℕ) (s s' : Search)
    → v ≢ k
    → Updated g u k s s' v ⊎ Kept g u k s s' v
    → Updated g u (suc k) s (relax_at g u k s') v ⊎ Kept g u (suc k) s (relax_at g u k s') v
each-other g u k v s s' h (inl up) =
    let (d, p) = relax_at-other g u k v s' h in
    inl (record {
      under = omega (arith, up.under);
      unvisited = up.unvisited;
      shorter = up.shorter;
      dist_is = d ∙ up.dist_is;
      prev_is = p ∙ up.prev_is;
    })
each-other g u k v s s' h (inr kept) =
    let (d, p) = relax_at-other g u k v s' h in
    inr (record {
      dist_is = d ∙ kept.dist_is;
      prev_is = p ∙ kept.prev_is;
      no_shorter = λ lt open_v. kept.no_shorter (ground (arith, lt, h)) open_v;
    })

each-own :
    (g : Graph) (u k : ℕ) (s s' : Search)
    → s.visited u ≡ true
    → s'.visited k ≡ s.visited k
    → s'.dist u ≡ s.dist u
    → s'.dist k ≡ s.dist k
    → s'.prev k ≡ s.prev k
    → Updated g u (suc k) s (relax_at g u k s') k ⊎ Kept g u (suc k) s (relax_at g u k s') k
unfolding relax_at
each-own g u k s s' self vis du dk pk =
    elim (Bool-cases (not (s'.visited k) && ltb (s'.dist u + g u k) (s'.dist k))) [
      | inl taken ↦ inl (record {
        under = omega arith;
        unvisited = ground (arith, taken, vis);
        shorter = ground (arith, taken, du, dk);
        dist_is = rw taken (ground (arith, du));
        prev_is = rw taken (ground arith);
      })
      | inr passed ↦ inr (record {
        dist_is = rw passed dk;
        prev_is = rw passed pk;
        no_shorter = λ lt open_v. ground (arith, passed, du, dk, vis, open_v);
      })
    ]

-- The node that is visited already is not touched.
dist_self :
    (g : Graph) (u n : ℕ) (s s' : Search)
    → s.visited u ≡ true
    → Relaxed g u n s s'
    → s'.dist u ≡ s.dist u
dist_self g u n s s' self r = elim (r.each u) [
  | inl up ↦ absurd (ground (arith, up.unvisited, self))
  | inr kept ↦ kept.dist_is
]

pub relax_upto-Relaxed :
    (g : Graph) (u n : ℕ) (s : Search) → s.visited u ≡ true → Relaxed g u n s (relax_upto g u n s)
unfolding relax_upto
relax_upto-Relaxed g u zero s self = record {
  same = λ v. refl;
  each = λ v. inr (record {
    dist_is = refl;
    prev_is = refl;
    no_shorter = λ lt open_v. absurd (omega (arith, lt));
  });
}
relax_upto-Relaxed g u (suc k) s self =
    let s' = relax_upto g u k s in
    let r = relax_upto-Relaxed g u k s self in
    let own : Updated g u (suc k) s (relax_at g u k s') k
        ⊎ Kept g u (suc k) s (relax_at g u k s') k =
      elim (r.each k) [
        | inl up ↦ absurd (omega (arith, up.under))
        | inr kept ↦
            each-own g u k s s' self (r.same k) (dist_self g u k s s' self r) kept.dist_is
              kept.prev_is
      ] in
    record {
      same = λ v. relax_at-same g u k v s' ∙ r.same v;
      each = λ v. elim (Bool-cases (v == k)) [
        | inl on ↦
            let at : k ≡ v = ground (arith, on) in
            subst
              (λ x.
                Updated g u (suc k) s (relax_at g u k s') x
                ⊎ Kept g u (suc k) s (relax_at g u k s') x)
              at own
        | inr off ↦ each-other g u k v s s' (ground (arith, off)) (r.each v)
      ];
    }
