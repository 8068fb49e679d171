-- ===== src/Ospf/Neighbours.antt =====
-- The count of the neighbours, and the LSU packets that are made from it.
use ucas_computer_network.Common.{
  ℕ, suc, ◌+◌, ◌-◌, ◌*◌, ◌%◌, ◌^◌, ◌≡◌, refl, ap, sym, ◌∙◌, subst, true, Option, none, some, List,
  [], ◌∷◌, ◌++◌, arith, ltb, leb, ◌==◌, length, take, replicate, map, All, Bool-cases, Option-cases,
  inl, inr, ◌>>=◌, length-append, All-append,
}
use ucas_computer_network.Ospf.{
  Nbr, OspfIface, Router, Lsu, count_nbrs, lsa_of, lsas_of, advertised, lsus_to, sending_mospf_lsu,
  known_nbr, refresh_nbr, handle_mospf_hello, age_nbrs, age_ifaces, check_nbrs,
}

-- `num_nbr` is the number of neighbours.
abbrev pub Counted : OspfIface → Type 0
Counted i = i.num_nbr ≡ length i.nbr_list

length-map : {A B : Type 0} (f : A → B) (xs : List A) → length (map f xs) ≡ length xs
length-map f [] = refl
length-map f (x ∷ xs) = ap suc (length-map f xs)

take_all : {A : Type 0} (xs ys : List A) → take (length xs) (xs ++ ys) ≡ xs
take_all [] ys = refl
take_all (x ∷ xs) ys = ap (◌∷◌ x) (take_all xs ys)

length-lsas_of : (is : List OspfIface) → All Counted is → length (lsas_of is) ≡ count_nbrs is
unfolding lsas_of count_nbrs
length-lsas_of [] h = refl
length-lsas_of (i ∷ is) (own, rest) = elim (Bool-cases (i.num_nbr == 0)) [
  | inl stub ↦ rw stub (omega (arith, length-lsas_of is rest))
  | inr linked ↦ rw linked (
      length-append (map lsa_of i.nbr_list) (lsas_of is)
      ∙ omega (arith, length-map lsa_of i.nbr_list, own, length-lsas_of is rest))
]

-- While `num_nbr` of each interface is the number of its neighbours, the array of an LSU is large
-- enough, and each neighbour is sent all of it: an advertisement for each neighbour, and one for each
-- interface without any, with the next sequence number.
pub sending-exact :
    (r : Router)
    → All Counted r.ifaces
    → sending_mospf_lsu r
      ≡ some (
        record r { sequence_num = (r.sequence_num + 1) % 2 ^ 16 },
        lsus_to r.router_id ((r.sequence_num + 1) % 2 ^ 16) (lsas_of r.ifaces) r.ifaces,
      )
unfolding sending_mospf_lsu advertised
sending-exact r h =
    let len = length-lsas_of r.ifaces h in
    let fits : leb (length (lsas_of r.ifaces)) (count_nbrs r.ifaces + 1) ≡ true =
      ground (arith, len) in
    let seq = (r.sequence_num + 1) % 2 ^ 16 in
    let whole : advertised r.ifaces ≡ lsas_of r.ifaces =
      ap
        (λ n. take n (
          lsas_of r.ifaces
          ++ replicate (count_nbrs r.ifaces) (record { network = 0; mask = 0; rid = 0 })))
        (sym len)
      ∙ take_all (lsas_of r.ifaces) _ in
    rw fits (
      ap (λ lsas. some (record r { sequence_num = seq }, lsus_to r.router_id seq lsas r.ifaces))
        whole)

pub All-insert :
    (before after : List OspfIface) (i : OspfIface)
    → All Counted before
    → Counted i
    → All Counted after
    → All Counted (before ++ (i ∷ after))
All-insert before after i b c a = All-append Counted before (i ∷ after) b (c, a)

pub length-refresh : (ip : ℕ) (ns : List Nbr) → length (refresh_nbr ip ns) ≡ length ns
unfolding refresh_nbr
length-refresh ip [] = refl
length-refresh ip (n ∷ ns) = elim (Bool-cases (n.nbr_ip == ip)) [
  | inl on ↦ rw on refl
  | inr off ↦ rw off (ap suc (length-refresh ip ns))
]

-- A step that succeeds and keeps the counts right.
abbrev pub Succeeds : Option (Router × List Lsu) → Type 0
Succeeds none = ⊥
Succeeds (some (r, out)) = All Counted r.ifaces

sending-Succeeds : (r : Router) → All Counted r.ifaces → Succeeds (sending_mospf_lsu r)
sending-Succeeds r h = rw (sending-exact r h) h

-- A Hello on an interface, from a new neighbour or a known one, is handled without writing beyond the
-- array of the LSU that it sets off, and keeps the counts of the neighbours right.
pub hello-Succeeds :
    (r : Router) (before after : List OspfIface) (i : OspfIface) (id ip mask : ℕ)
    → All Counted before
    → Counted i
    → All Counted after
    → Succeeds (handle_mospf_hello r before i after id ip mask)
unfolding handle_mospf_hello
hello-Succeeds r before after i id ip mask b c a = elim (Bool-cases (known_nbr ip i.nbr_list)) [
  | inl old ↦
      rw (old, Succeeds)
        (All-insert before after (record i { nbr_list = refresh_nbr ip i.nbr_list }) b
          (c ∙ sym (length-refresh ip i.nbr_list)) a)
  | inr new ↦
      let n : Nbr = record { alive = 0; nbr_id = id; nbr_ip = ip; nbr_mask = mask } in
      let i' = record i { nbr_list = i.nbr_list ++ (n ∷ []); num_nbr = i.num_nbr + 1 } in
      let c' : Counted i' = omega (arith, c, length-append i.nbr_list (n ∷ [])) in
      rw (new, Succeeds)
        (sending-Succeeds (record r { ifaces = before ++ (i' ∷ after) })
          (All-insert before after i' b c' a))
]

-- The round of `checking_nbr_thread` over one interface, of which the neighbours `ns` are left.
AgesTo : Option (Router × OspfIface × List Lsu) → Type 0
AgesTo none = ⊥
AgesTo (some (r, i, out)) = Counted i

AgesTo-bind :
    (out : List Lsu) (o : Option (Router × OspfIface × List Lsu))
    → AgesTo o
    → AgesTo (o >>= λ x. some (x.0, x.1, out ++ x.2))
unfolding AgesTo
AgesTo-bind out none h = h
AgesTo-bind out (some (r, i, out')) h = h

age_nbrs-AgesTo :
    (r : Router) (before after : List OspfIface) (i : OspfIface) (kept ns : List Nbr)
    → All Counted before
    → All Counted after
    → i.num_nbr ≡ length kept + length ns
    → AgesTo (age_nbrs r before i after kept ns)
unfolding age_nbrs AgesTo
age_nbrs-AgesTo r before after i kept [] b a c = omega (arith, c)
age_nbrs-AgesTo r before after i kept (n ∷ ns) b a c =
    let n' : Nbr = record n { alive = (n.alive + 1) % 256 } in
    elim (Bool-cases (ltb (3 * i.helloint) n'.alive)) [
      | inl dead ↦
          let i' = record i { num_nbr = i.num_nbr - 1 } in
          let i'' = record i' { nbr_list = kept ++ ns } in
          let r' = record r { ifaces = before ++ (i'' ∷ after) } in
          let c' : Counted i'' = omega (arith, c, length-append kept ns) in
          let sent = sending-exact r' (All-insert before after i'' b c' a) in
          rw (dead, age_nbrs, sent)
            (AgesTo-bind _ _ (
              age_nbrs-AgesTo (record r' { sequence_num = (r.sequence_num + 1) % 2 ^ 16 }) before
                after i' kept ns b a (omega (arith, c))))
      | inr live ↦
          rw (live, age_nbrs)
            (age_nbrs-AgesTo r before after i (kept ++ (n' ∷ [])) ns b a
              (omega (arith, c, length-append kept (n' ∷ []))))
    ]

AllAgeTo : Option (Router × List OspfIface × List Lsu) → Type 0
AllAgeTo none = ⊥
AllAgeTo (some (r, is, out)) = All Counted is

AllAgeTo-bind :
    (out : List Lsu) (o : Option (Router × List OspfIface × List Lsu))
    → AllAgeTo o
    → AllAgeTo (o >>= λ x. some (x.0, x.1, out ++ x.2))
unfolding AllAgeTo
AllAgeTo-bind out none h = h
AllAgeTo-bind out (some (r, is, out')) h = h

age_ifaces-AllAgeTo :
    (before is : List OspfIface) (r : Router)
    → All Counted before
    → All Counted is
    → AllAgeTo (age_ifaces r before is)
unfolding age_ifaces AllAgeTo AgesTo
age_ifaces-AllAgeTo before [] r b h = b
age_ifaces-AllAgeTo before (i ∷ is) r b (c, a) =
    let one = age_nbrs-AgesTo r before is i [] i.nbr_list b a (omega (arith, c)) in
    elim (Option-cases (age_nbrs r before i is [] i.nbr_list)) [
      | inl e ↦ absurd (subst AgesTo e one)
      | inr ((r', i', out), e) ↦
          let c' : Counted i' = subst AgesTo e one in
          rw (e, age_ifaces)
            (AllAgeTo-bind out _
              (age_ifaces-AllAgeTo (before ++ (i' ∷ [])) is r' (All-insert before [] i' b c' tt) a))
    ]

-- A round of the neighbour thread, which drops the neighbours that have been silent for too long and
-- sends an LSU for each, never writes beyond an array, and keeps the counts of the neighbours right.
pub check_nbrs-Succeeds : (r : Router) → All Counted r.ifaces → Succeeds (check_nbrs r)
unfolding check_nbrs AllAgeTo
check_nbrs-Succeeds r h =
    let all = age_ifaces-AllAgeTo [] r.ifaces r tt h in
    elim (Option-cases (age_ifaces r [] r.ifaces)) [
      | inl e ↦ absurd (subst AllAgeTo e all)
      | inr ((r', is, out), e) ↦
          let h' : All Counted is = subst AllAgeTo e all in rw (e, Succeeds) h'
    ]
