-- ===== src/Tcp/Receive/Order.antt =====
-- The order of the out-of-order buffer.
use ucas_computer_network.Common.{
  ℕ, ◌^◌, ◌<◌, ◌≤◌, ◌≡◌, refl, List, [], ◌∷◌, ◌++◌, arith, ltb, Bool-cases, inl, inr, ◌∙◌, ap, sym,
}
use ucas_computer_network.Common.Words.{add32}
use ucas_computer_network.Tcp.Seq.{less_than_32b, seq_offsets}
use ucas_computer_network.Tcp.Sock.{OfoEntry}
use ucas_computer_network.Tcp.Receive.{insert_ofo}

-- The entries begin at offsets from `base` that do not fall, from `lo` on.
abbrev pub Ordered : ℕ → ℕ → List OfoEntry → Type 0
Ordered base lo [] = Unit {0}
Ordered base lo (e ∷ es) =
    (m : ℕ) × (e.seq ≡ add32 base m) × (lo ≤ m) × (m < 2 ^ 31) × Ordered base m es

-- `xs` with `e` put in somewhere.
abbrev pub PutIn : OfoEntry → List OfoEntry → List OfoEntry → Type 0
PutIn e xs ys =
    (front : List OfoEntry) × (back : List OfoEntry) × (xs ≡ front ++ back)
    × (ys ≡ front ++ (e ∷ back))

-- Adding an entry at an offset below 2 ^ 31 keeps the buffer in the order of the offsets, loses no
-- entry, and adds no other.
pub insert-Ordered :
    (base lo k : ℕ) (e : OfoEntry) (xs : List OfoEntry)
    → base < 2 ^ 32
    → e.seq ≡ add32 base k
    → lo ≤ k
    → k < 2 ^ 31
    → Ordered base lo xs
    → Ordered base lo (insert_ofo e xs) × PutIn e xs (insert_ofo e xs)
unfolding insert_ofo
insert-Ordered base lo k e [] hb a l h o = ((k, a, l, h, tt), ([], [], refl, refl))
insert-Ordered base lo k e (x ∷ xs) hb a l h (m, at, le, near, o) =
    let as_offsets : less_than_32b e.seq x.seq ≡ ltb k m =
      rw (a, at) ((seq_offsets base k m hb h near).0) in
    elim (Bool-cases (less_than_32b e.seq x.seq)) [
      | inl first ↦
          rw (first, insert_ofo)
            (
              (k, a, l, h, (m, at, ground (arith, sym as_offsets ∙ first), near, o)),
              ([], x ∷ xs, refl, refl),
            )
      | inr behind ↦
          let (o', (front, back, p, q)) =
            insert-Ordered base m k e xs hb a (ground (arith, sym as_offsets ∙ behind)) h o in
          rw (behind, insert_ofo)
            ((m, at, le, near, o'), (x ∷ front, back, ap (◌∷◌ x) p, ap (◌∷◌ x) q))
    ]
