-- ===== src/Stp/Elect.antt =====
-- `update_root` as a whole: the root port, and the root and cost that follow from it.
use ucas_computer_network.Common.{
  ℕ, ◌-◌, ◌≡◌, ◌≢◌, ◌⊎◌, inl, inr, refl, false, Option, none, some, List, [], ◌∷◌, arith, All,
  length, get_elem?, Option-cases,
}
use ucas_computer_network.Common.Words.{add32}
use ucas_computer_network.Stp.Priority.{IsWordCost, NoWorse}
use ucas_computer_network.Stp.Root.{
  but_last, Among, Falling, IsEntry, non_designated-IsEntry, non_designated-WordCosts,
  select_root-best, select_root-Falling,
}
use ucas_computer_network.Stp.{
  Stp, StpPort, Entry, select_root, non_designated_from, stp_port_is_designated, update_root,
  new_root_port, root_of, follow_root,
}

abbrev pub candidates : Stp → List Entry
candidates stp = non_designated_from stp 0 stp.ports

-- The switch after `update_root` follows the port `e`.
pub record Elected (stp stp' : Stp) (e : Entry) : Type 0 where
  pub index : stp'.root_port ≡ some e.0
  pub in_ports : get_elem? stp.ports e.0 ≡ some e.1
  pub other_side : stp_port_is_designated stp e.1 ≡ false
  pub best : All (λ f. NoWorse e.1 f.1) (but_last (candidates stp))
  pub root : stp'.designated_root ≡ e.1.designated_root
  pub cost : stp'.root_path_cost ≡ add32 e.1.designated_cost e.1.path_cost

Among-All {κ} : (P : Entry → Type κ) (r : Entry) (es : List Entry) → All P es → Among r es → P r
Among-All P r [] h m = absurd m
Among-All P r (e ∷ es) h (inl q) = rw q h.0
Among-All P r (e ∷ es) h (inr m) = Among-All P r es h.1 m

-- What `update_root` does when the scan assigns `e`, which is port `e.0`.
update_root-some :
    (stp : Stp) (e : Entry)
    → select_root (candidates stp) ≡ some e
    → get_elem? stp.ports e.0 ≡ some e.1
    → update_root stp ≡ follow_root (record stp { root_port = some e.0 }) (some e.1)
unfolding update_root new_root_port root_of
update_root-some stp e h k = rw (h, new_root_port, root_of) (rw (k, root_of))

update_root-none :
    (stp : Stp)
    → select_root (candidates stp) ≡ none
    → update_root stp ≡ follow_root stp (root_of stp)
unfolding update_root new_root_port
update_root-none stp h = rw (h, new_root_port)

root_port-follow : (stp : Stp) (o : Option StpPort) → (follow_root stp o).root_port ≡ stp.root_port
unfolding follow_root
root_port-follow stp none = refl
root_port-follow stp (some r) = refl

Elected-some :
    (stp : Stp) (e : Entry)
    → All IsWordCost stp.ports
    → select_root (candidates stp) ≡ some e
    → Elected stp (update_root stp) e
unfolding follow_root
Elected-some stp e h found =
    let ws = non_designated-WordCosts stp 0 stp.ports h in
    let (best, m) = select_root-best (candidates stp) {r = e} ws found in
    let (_, inside, side) =
      Among-All (IsEntry stp stp.ports 0) e _ (non_designated-IsEntry stp 0 stp.ports) m in
    let inside' : get_elem? stp.ports e.0 ≡ some e.1 = rw (minus_zero e.0) at inside in
    rw (update_root-some stp e found inside') (record {
      index = refl;
      in_ports = inside';
      other_side = side;
      best = best;
      root = refl;
      cost = refl;
    })
  where
    minus_zero : (n : ℕ) → n - 0 ≡ n
    minus_zero n = omega arith

select_root_one : (es : List Entry) → select_root es ≡ none → length es ≢ 1
unfolding select_root
select_root_one [] h n = absurd (omega arith)
select_root_one (e ∷ []) h n = cc
select_root_one (e ∷ f ∷ es) h n = absurd (omega arith)

-- For costs that are 32-bit words, `update_root` either elects a port, which is not designated and
-- no worse than every other such port but the last, and takes its root and its cost plus the cost
-- of the path; or it leaves the root port as it was, and then there is not one such port and each
-- is no better than the next.
pub update_root-Elected :
    (stp : Stp)
    → All IsWordCost stp.ports
    → ((e : Entry) × Elected stp (update_root stp) e)
      ⊎ (((update_root stp).root_port ≡ stp.root_port)
          × (length (candidates stp) ≢ 1)
          × Falling (candidates stp))
update_root-Elected stp h = elim (Option-cases (select_root (candidates stp))) [
  | inl missed ↦
      let one = select_root_one (candidates stp) missed in
      inr (
        rw (update_root-none stp missed) (root_port-follow stp (root_of stp)),
        one,
        (select_root-Falling (candidates stp) (non_designated-WordCosts stp 0 stp.ports h) one).0
            missed,
      )
  | inr (e, found) ↦ inl (e, Elected-some stp e h found)
]

-- The port that wins over all others is missed when it is the last: with two or more ports that are
-- not designated, each no better than the next, `update_root` does not change the root port.
pub update_root-missed :
    (stp : Stp)
    → All IsWordCost stp.ports
    → length (candidates stp) ≢ 1
    → Falling (candidates stp)
    → (update_root stp).root_port ≡ stp.root_port
update_root-missed stp h one f =
    let missed =
      (select_root-Falling (candidates stp) (non_designated-WordCosts stp 0 stp.ports h) one).1 f in
    rw (update_root-none stp missed) (root_port-follow stp (root_of stp))
