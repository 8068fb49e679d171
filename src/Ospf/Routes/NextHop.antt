-- ===== src/Ospf/Routes/NextHop.antt =====
-- The next hop on the way that Dijkstra's algorithm has found.
use ucas_computer_network.Common.{
  ℕ, zero, suc, ◌+◌, ◌<◌, ◌≤◌, ◌≡◌, ◌≢◌, inl, inr, refl, ap, ◌∙◌, true, false, Option, some, arith,
  ◌==◌, Bool-cases,
}
use ucas_computer_network.Ospf.Routes.{Graph, Search, far, find_next_hop}
use ucas_computer_network.Ospf.Routes.Shortest.{IsShortest}

-- The first router of a shortest walk to `v`: the walk goes on from it.
pub record Hop (g : Graph) (n : ℕ) (s : Search) (v h : ℕ) : Type 0 where
  pub first : s.prev h ≡ some 0
  pub edge : s.dist h ≡ s.dist 0 + g 0 h
  pub on_way : s.dist h ≤ s.dist v

hop_step :
    (fuel v u : ℕ) (prev : ℕ → Option ℕ)
    → prev v ≡ some u
    → u ≢ 0
    → find_next_hop (suc fuel) prev v ≡ find_next_hop fuel prev u
unfolding find_next_hop
hop_step fuel v u prev e ne =
    let off : (u == 0) ≡ false = ground (arith, ne) in rw (e, off, find_next_hop) refl

hop_last :
    (fuel v u : ℕ) (prev : ℕ → Option ℕ)
    → prev v ≡ some u
    → u ≡ 0
    → find_next_hop (suc fuel) prev v ≡ some v
unfolding find_next_hop
hop_last fuel v u prev e at =
    let on : (u == 0) ≡ true = ground (arith, at) in rw (e, on, find_next_hop) refl

-- On a graph whose edges are at least 1, the walk back from a router other than 0, whose distance is
-- below 127, ends after no more rounds than the distance: at a router that comes directly after 0,
-- by an edge of the graph, and no farther away.
pub find_next_hop-Hop :
    (g : Graph) (n fuel v : ℕ) (s : Search)
    → ((i j : ℕ) → 1 ≤ g i j)
    → IsShortest g n s
    → s.dist v < far
    → v ≢ 0
    → s.dist v ≤ fuel
    → (h : ℕ) × (find_next_hop fuel s.prev v ≡ some h) × Hop g n s v h
find_next_hop-Hop g n zero v s edges short near ne le =
    let (u, from) = short.rooted v near ne in
    let (lt, is) = short.came v u from in absurd (omega (arith, is, le, edges u v))
find_next_hop-Hop g n (suc fuel) v s edges short near ne le =
    let (u, from) = short.rooted v near ne in
    let (lt, is) = short.came v u from in
    elim (Bool-cases (u == 0)) [
      | inl on ↦
          let at : u ≡ 0 = ground (arith, on) in
          (
            v,
            hop_last fuel v u s.prev from at,
            record {
              first = from ∙ ap some at;
              edge = is ∙ ap (λ x. s.dist x + g x v) at;
              on_way = omega arith;
            },
          )
      | inr off ↦
          let ne_u : u ≢ 0 = ground (arith, off) in
          let positive = edges u v in
          let (h, found, hop) =
            find_next_hop-Hop g n fuel u s edges short (omega (arith, is, positive, near)) ne_u
              (omega (arith, is, positive, le)) in
          (
            h,
            hop_step fuel v u s.prev from ne_u ∙ found,
            record { first = hop.first; edge = hop.edge; on_way = omega (arith, hop.on_way, is) },
          )
    ]
