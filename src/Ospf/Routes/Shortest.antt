-- ===== src/Ospf/Routes/Shortest.antt =====
-- Dijkstra's algorithm finds the shortest paths.
use ucas_computer_network.Common.{
  ℕ, zero, suc, ◌+◌, ◌<◌, ◌≤◌, ◌≡◌, ◌≢◌, ◌⊎◌, inl, inr, refl, ap, ◌∙◌, subst, Bool, true, false,
  some, arith, ◌==◌, ltb, Bool-cases, Option-cases, if◌then◌else◌,
}
use ucas_computer_network.Common.Tables.{update}
use ucas_computer_network.Ospf.Routes.{
  Graph, Search, far, min_dist, relax_upto, start_search, search_rounds, dijkstra,
}
use ucas_computer_network.Ospf.Routes.Relax.{Nearest, min_dist-Nearest, relax_upto-Relaxed}
use ucas_computer_network.Ospf.Routes.Round.{Walk, begin, extend, Inv, mark, visited-new, round-Inv}

-- How many of the nodes below `n` are not visited.
pub open_count : (ℕ → Bool) → ℕ → ℕ
open_count visited zero = 0
open_count visited (suc v) = (if visited v then 0 else 1) + open_count visited v

open_count-same : (f h : ℕ → Bool) (n : ℕ) → ((v : ℕ) → f v ≡ h v) → open_count f n ≡ open_count h n
unfolding open_count
open_count-same f h zero same = refl
open_count-same f h (suc v) same = rw (same v, open_count-same f h v same) refl

pub open_count-none : (f : ℕ → Bool) (n : ℕ) → ((v : ℕ) → v < n → f v ≡ true) → open_count f n ≡ 0
unfolding open_count
open_count-none f zero all = refl
open_count-none f (suc v) all =
    rw (all v (omega arith))
      (omega (arith, open_count-none f v (λ w lt. all w (omega (arith, lt)))))

pub open_count-zero : (f : ℕ → Bool) (n : ℕ) → open_count f n ≡ 0 → (v : ℕ) → v < n → f v ≡ true
unfolding open_count
open_count-zero f zero h v lt = absurd (omega (arith, lt))
open_count-zero f (suc k) h v lt = elim (Bool-cases (f k)) [
  | inl shut ↦ elim (Bool-cases (v == k)) [
    | inl on ↦ let at : v ≡ k = ground (arith, on) in rw at shut
    | inr off ↦ open_count-zero f k (ground (arith, h)) v (ground (arith, off, lt))
  ]
  | inr new ↦ absurd (ground (arith, new, h))
]

-- Marking a node beyond the range changes nothing, and one in it counts.
open_count-beyond :
    (f : ℕ → Bool) (u n : ℕ) → n ≤ u → open_count (update f u true) n ≡ open_count f n
unfolding open_count
open_count-beyond f u zero le = refl
open_count-beyond f u (suc v) le =
    let rest = open_count-beyond f u v (omega (arith, le)) in
    let off : (v == u) ≡ false = ground (arith, le) in rw (off, rest) refl

pub open_count-mark :
    (f : ℕ → Bool) (u n : ℕ)
    → u < n
    → f u ≡ false
    → open_count f n ≡ suc (open_count (update f u true) n)
unfolding open_count
open_count-mark f u zero lt new = absurd (omega (arith, lt))
open_count-mark f u (suc v) lt new = elim (Bool-cases (v == u)) [
  | inl on ↦
      let at : v ≡ u = ground (arith, on) in
      let rest = open_count-beyond f u v (omega (arith, at)) in
      let open_v : f v ≡ false = ap f at ∙ new in rw (on, open_v) (omega (arith, rest))
  | inr off ↦
      let rest = open_count-mark f u v (ground (arith, off, lt)) new in
      rw (off, rest) (ground arith)
]

-- The distances are those of the shortest walks, and `far` where there is none that is shorter.
pub record IsShortest (g : Graph) (n : ℕ) (s : Search) : Type 0 where
  pub least : {v d : ℕ} → Walk g n v d → s.dist v ≤ d
  pub attained : (v : ℕ) → (s.dist v ≡ far) ⊎ Walk g n v (s.dist v)
  pub came : (v u : ℕ) → s.prev v ≡ some u → (u < n) × (s.dist v ≡ s.dist u + g u v)
  pub rooted : (v : ℕ) → s.dist v < far → v ≢ 0 → (u : ℕ) × (s.prev v ≡ some u)

start-Inv : (g : Graph) (n : ℕ) → Inv g n start_search
unfolding start_search
start-Inv g n = record {
  settled = λ u v shut lt. absurd (ground (arith, shut));
  order = λ u v shut lt new. absurd (ground (arith, shut));
  capped = λ v. ground arith;
  start = refl;
  reached = λ v lt. let at : v ≡ 0 = ground (arith, lt) in rw at begin;
  came = λ v u from. cc;
  rooted = λ v lt ne. absurd (ground (arith, lt, ne));
}

Walk-under : {g : Graph} {n v d : ℕ} → 0 < n → Walk g n v d → v < n
Walk-under pos begin = pos
Walk-under pos (extend w lt) = lt

finished-IsShortest :
    (g : Graph) (n : ℕ) (s : Search)
    → 0 < n
    → Inv g n s
    → ((v : ℕ) → v < n → s.visited v ≡ true)
    → IsShortest g n s
finished-IsShortest g n s pos inv all = record {
  least = least;
  attained = λ v. elim (Bool-cases (ltb (s.dist v) far)) [
    | inl near ↦ inr (inv.reached v (ground (arith, near)))
    | inr no_way ↦ inl (ground (arith, no_way, inv.capped v))
  ];
  came = λ v u from. let (shut, lt, is) = inv.came v u from in (lt, is);
  rooted = inv.rooted;
}
  where
    least : {v d : ℕ} → Walk g n v d → s.dist v ≤ d
    least begin = omega (arith, inv.start)
    least (extend {u} {v} {d} w lt) =
        omega (arith, least w, inv.settled u v (all u (Walk-under pos w)) lt)

search_round :
    (g : Graph) (n m u : ℕ) (s : Search)
    → min_dist s.dist s.visited n ≡ some u
    → search_rounds g n (suc m) s ≡ search_rounds g n m (relax_upto g u n (mark s u))
unfolding search_rounds
search_round g n m u s e = rw (e, search_rounds) refl

pub open_count-start : (n : ℕ) → open_count (λ v. false) n ≡ n
unfolding open_count
open_count-start zero = refl
open_count-start (suc n) = omega (arith, open_count-start n)

rounds-IsShortest :
    (g : Graph) (n m : ℕ) (s : Search)
    → 0 < n
    → Inv g n s
    → open_count s.visited n ≡ m
    → (s' : Search) × (search_rounds g n m s ≡ some s') × IsShortest g n s'
unfolding search_rounds
rounds-IsShortest g n zero s pos inv count =
    (s, refl, finished-IsShortest g n s pos inv (open_count-zero s.visited n count))
rounds-IsShortest g n (suc m) s pos inv count =
    let nearest = min_dist-Nearest s.dist s.visited n in
    elim (Option-cases (min_dist s.dist s.visited n)) [
      | inl e ↦
          let all = subst (Nearest s.dist s.visited n) e nearest in
          absurd (omega (arith, count, open_count-none s.visited n all))
      | inr (u, e) ↦
          let (lt, free, least) = subst (Nearest s.dist s.visited n) e nearest in
          let s' = relax_upto g u n (mark s u) in
          let r = relax_upto-Relaxed g u n (mark s u) (visited-new s u) in
          let count' : open_count s'.visited n ≡ m =
            open_count-same s'.visited (mark s u).visited n r.same
            ∙ omega (arith, count, open_count-mark s.visited u n lt free) in
          let (s'', ends, short) =
            rounds-IsShortest g n m s' pos (round-Inv g n u s s' inv lt free least r) count' in
          (s'', search_round g n m u s e ∙ ends, short)
    ]

-- On any graph of `n` routers, `n` at least 1, the search ends, and its distances are those of the
-- shortest walks from router 0: no walk is shorter, and each distance is the length of a walk, unless
-- it is 127, which stands for none that is shorter. Each router but 0 with a distance below 127 has a
-- predecessor, from which its distance is one edge.
pub dijkstra-IsShortest :
    (g : Graph) (n : ℕ) → 0 < n → (s : Search) × (dijkstra g n ≡ some s) × IsShortest g n s
unfolding dijkstra start_search
dijkstra-IsShortest g n pos =
    rounds-IsShortest g n n start_search pos (start-Inv g n) (open_count-start n)
