-- ===== src/Ospf/Flood.antt =====
-- The database, and the flooding of LSU packets.
use ucas_computer_network.Common.{
  ℕ, zero, suc, ◌+◌, ◌%◌, ◌<◌, ◌≤◌, ◌≡◌, ◌≢◌, ◌⊎◌, inl, inr, refl, subst, Bool, true, false, Option,
  none, some, List, [], ◌∷◌, arith, ltb, leb, ◌==◌, length, Bool-cases, Option-cases, ◌>>=◌,
  if◌then◌else◌,
}
use ucas_computer_network.Ospf.{
  DbEntry, Router, Lsu, mospf_database_timeout, age_db, update_db, forward_from, handle_mospf_lsu,
}

-- The first entry of the packet's router is at least as new as the packet.
abbrev pub IsKnown : Lsu → List DbEntry → Type 0
IsKnown p [] = ⊥
IsKnown p (e ∷ es) = ((e.rid ≡ p.rid) × (p.seq ≤ e.seq)) ⊎ ((e.rid ≢ p.rid) × IsKnown p es)

-- That entry is older, and was allocated for fewer advertisements than the packet has.
abbrev pub Overflows : Lsu → List DbEntry → Type 0
Overflows p [] = ⊥
Overflows p (e ∷ es) =
    ((e.rid ≡ p.rid) × (e.seq < p.seq) × (length e.array < length p.lsas))
    ⊎ ((e.rid ≢ p.rid) × Overflows p es)

Updates : Lsu → List DbEntry → Option (List DbEntry × Bool) → Type 0
Updates p db none = Overflows p db
Updates p db (some (db', changed)) = IsKnown p db'

Updates-skip :
    (p : Lsu) (e : DbEntry) (es : List DbEntry) (o : Option (List DbEntry × Bool))
    → e.rid ≢ p.rid
    → Updates p es o
    → Updates p (e ∷ es) (o >>= λ r. some (e ∷ r.0, r.1))
unfolding Updates
Updates-skip p e es none ne h = inr (ne, h)
Updates-skip p e es (some (es', changed)) ne h = inr (ne, h)

update_db-Updates : (p : Lsu) (db : List DbEntry) → Updates p db (update_db p db)
unfolding update_db Updates
update_db-Updates p [] = inl (refl, omega arith)
update_db-Updates p (e ∷ es) = elim (Bool-cases (e.rid == p.rid)) [
  | inl on ↦
      let own : e.rid ≡ p.rid = ground (arith, on) in
      elim (Bool-cases (ltb e.seq p.seq)) [
        | inl newer ↦ elim (Bool-cases (leb (length p.lsas) (length e.array))) [
          | inl fits ↦ rw (on, update_db, newer, fits) (inl (own, omega arith))
          | inr grows ↦
              rw (on, update_db, newer, grows)
                (inl (own, ground (arith, newer), ground (arith, grows)))
        ]
        | inr older ↦ rw (on, update_db, older) (inl (own, ground (arith, older)))
      ]
  | inr off ↦
      rw (off, update_db)
        (Updates-skip p e es (update_db p es) (ground (arith, off)) (update_db-Updates p es))
]

update-known : (p : Lsu) (db : List DbEntry) → IsKnown p db → update_db p db ≡ some (db, false)
unfolding update_db
update-known p [] known = absurd known
update-known p (x ∷ xs) (inl (own, le)) =
    let on : (x.rid == p.rid) ≡ true = ground (arith, own) in
    let older : ltb x.seq p.seq ≡ false = ground (arith, le) in rw (on, update_db, older) refl
update-known p (x ∷ xs) (inr (other, known)) =
    let off : (x.rid == p.rid) ≡ false = ground (arith, other) in
    rw (off, update_db, update-known p xs known) refl

update-Overflows : (p : Lsu) (db : List DbEntry) → Overflows p db → update_db p db ≡ none
unfolding update_db
update-Overflows p [] over = absurd over
update-Overflows p (x ∷ xs) (inl (own, lt, long)) =
    let on : (x.rid == p.rid) ≡ true = ground (arith, own) in
    let newer : ltb x.seq p.seq ≡ true = ground (arith, lt) in
    let grows : leb (length p.lsas) (length x.array) ≡ false = ground (arith, long) in
    rw (on, update_db, newer, grows) refl
update-Overflows p (x ∷ xs) (inr (other, over)) =
    let off : (x.rid == p.rid) ≡ false = ground (arith, other) in
    rw (off, update_db, update-Overflows p xs over) refl

-- Whatever the router has in its database, a packet either overflows the array of its router's entry,
-- and does so only if that entry is older and was allocated for fewer advertisements; or it is
-- handled, and then handling the same packet again changes nothing and sends nothing: flooding
-- forwards each packet at most once.
pub flood_once :
    (r : Router) (p : Lsu)
    → ((handle_mospf_lsu r p ≡ none) × Overflows p r.db)
      ⊎ ((r' : Router) × (out : List Lsu) × (handle_mospf_lsu r p ≡ some (r', out))
          × (handle_mospf_lsu r' p ≡ some (r', [])))
unfolding handle_mospf_lsu Updates
flood_once r p =
    let updates = update_db-Updates p r.db in
    elim (Option-cases (update_db p r.db)) [
      | inl e ↦ inl (rw e refl, subst (Updates p r.db) e updates)
      | inr ((db, changed), e) ↦
          let again = update-known p db (subst (Updates p r.db) e updates) in
          let p' = record p { ttl = (p.ttl + 255) % 256 } in
          inr (
            record r { db = db },
            if changed then (if ltb 0 p'.ttl then forward_from p' r.ifaces else []) else [],
            rw e refl,
            rw again refl,
          )
    ]

-- How long an entry lives.
pub age_times : ℕ → List DbEntry → List DbEntry
age_times zero db = db
age_times (suc n) db = age_times n (age_db db)

age_times-none : (n : ℕ) → age_times n [] ≡ []
unfolding age_times age_db
age_times-none zero = refl
age_times-none (suc n) = age_times-none n

-- An entry that no packet renews lives until its count has passed 40: after `n` rounds from the count
-- `a` on it has the count `a` + `n`, if that is at most 40, and is gone otherwise.
pub age_times_lem :
    (n a : ℕ) (e : DbEntry)
    → a ≤ mospf_database_timeout
    → age_times n (record e { alive = a } ∷ [])
      ≡ (if leb (a + n) mospf_database_timeout then record e { alive = a + n } ∷ [] else [])
unfolding age_times age_db
age_times_lem zero a e le =
    let same : a + 0 ≡ a = omega arith in
    let lives : leb a mospf_database_timeout ≡ true = ground (arith, le) in rw (same, lives) refl
age_times_lem (suc n) a e le = elim (Bool-cases (ltb mospf_database_timeout (a + 1))) [
  | inl dies ↦
      let gone : leb (a + suc n) mospf_database_timeout ≡ false = ground (arith, dies) in
      rw (dies, gone) (age_times-none n)
  | inr lives ↦
      let same : a + suc n ≡ a + 1 + n = omega arith in
      rw (lives, same) (age_times_lem n (a + 1) e (ground (arith, lives)))
]
